-- ===== src/Queue/Update.antt =====
-- PriorityQueue.Push for a value that the queue holds, and both cases together.
use libvegas.Base.{
  ℕ, ◌<◌, ◌≡◌, ◌≢◌, refl, ◌∙◌, sym, ap, some, nat_beq, nat_beq_iff, if◌then◌else◌, Eq, ◌==◌, nat_eq,
  arith, length, inl, inr, Option-cases, Bool-cases,
}
use libvegas.Base.Run.{Returns, returned, Returns-then}
use libvegas.Base.Map.{lookup, insert, lookup-insert, beq_eq, ne_beq, beq_ne}
use libvegas.Base.Int.{pos}
use libvegas.Heap.{parent}
use libvegas.Heap.Calls.{fix_restores, changed-FixInv}
use libvegas.Queue.{Item, Pq, PriorityQueue, len, heap_interface, push_again, push}
use libvegas.Queue.Items.{core, core-some, top, at, rank_of, IsIndexed, at-injective, item_lem}
use libvegas.Queue.Sift.{sift_laws, Similar-refl}
use libvegas.Queue.Valid.{
  rank, Agrees, IsValid, priority_of, priority_in, priority_in-frame, Precedes-rank,
}
use libvegas.Queue.Insert.{Pushed, Sifted-IsValid, push_new_lem}

module _ {T : Type 0} ⦃e : Eq T⦄ where
  module _ (q : PriorityQueue T) (v : T) (p a i : ℕ) (valid : IsValid q)
      (held : lookup v q.idx ≡ some a) (h : i < length q.pq.items) (at_i : at q.pq i ≡ a)
      (x : Item T) (ex : lookup a q.pq.cells ≡ some x) (value : x.value ≡ v)
      (index : x.index ≡ pos i) where
    -- the slice with the new priority written, before the sift
    abbrev written : Pq T
    written = record q.pq { cells = insert a (record x { priority = p }) q.pq.cells }

    old : core q.pq.cells a ≡ some (v, x.priority)
    old = rw (ex, core) (ap (λ u. some (u, x.priority)) value)

    written-core :
        (c : ℕ) → core written.cells c ≡ (if nat_beq a c then some (v, p) else core q.pq.cells c)
    written-core c = ground (arith, lookup-insert a c (record x { priority = p }) q.pq.cells)

    written-IsIndexed : IsIndexed written
    written-IsIndexed c r =
        ground (
          arith,
          lookup-insert a (at q.pq c) (record x { priority = p }) q.pq.cells,
          valid.indexed c,
        )

    other :
        (c : ℕ)
        → c < length q.pq.items
        → c ≢ i
        → core written.cells (at q.pq c) ≡ core q.pq.cells (at q.pq c)
    other c r n = ground (arith, written-core (at q.pq c), at-injective q.pq c i valid.indexed r h)

    written-Agrees : Agrees q.idx written
    written-Agrees = record {
      sound = λ w b f.
          let (d, r, at_d, u, c) = valid.agrees.sound w b f in
          elim (Bool-cases (nat_beq a b)) [
            | inl same ↦ (
              d,
              r,
              at_d,
              p,
              written-core b
                  ∙ rw same (cc (old, c, ap (core q.pq.cells) ((nat_beq_iff a b).0 same))),
            )
            | inr differ ↦ (d, r, at_d, u, ground (arith, written-core b))
          ];
      complete = λ d w r s c. elim (Bool-cases (nat_beq a (at q.pq d))) [
        | inl same ↦
            let here = ap (core q.pq.cells) ((nat_beq_iff a (at q.pq d)).0 same) in
            let vw : v ≡ w = cc (c, written-core (at q.pq d), same) in
            rw (← vw) (valid.agrees.complete d v x.priority s (sym here ∙ old))
        | inr differ ↦ valid.agrees.complete d w r s (cc (c, written-core (at q.pq d), differ))
      ];
    }

    written-view :
        (w : T) → priority_in q.idx written.cells w ≡ (if v == w then some p else priority_of q w)
    written-view w = elim (Option-cases (lookup w q.idx)) [
      | inl gone ↦ rw (gone, ne_beq v w (λ same. cc (held, gone, same)), priority_in) refl
      | inr (b, f) ↦ elim (Bool-cases (v == w)) [
        | inl same ↦
            let at_b : a ≡ b = cc (held, f, beq_eq v w same) in
            let new : core written.cells b ≡ some (v, p) =
              rw (← at_b) (ground (arith, written-core a)) in
            rw (f, same, priority_in) (rw new refl)
        | inr differ ↦
            let (d, r, at_d, u, c) = valid.agrees.sound w b f in
            let apart : a ≢ b = λ at_b. beq_ne v w differ (cc (old, c, at_b)) in
            let kept : core written.cells b ≡ core q.pq.cells b =
              ground (arith, written-core b, apart) in
            rw (f, differ, priority_in) (rw kept refl)
      ]
    ]

    push_again_lem : Returns (Pushed q v p) (push_again q a p)
    unfolding push_again sift_laws len
    push_again_lem =
        rw (ex, index)
          (Returns-then
            (fix_restores heap_interface (sift_laws written) written i
              (Similar-refl written written-IsIndexed)
              (changed-FixInv
                (λ c. rank_of q.pq.reversed (top written.cells) (core q.pq.cells (at q.pq c)))
                (λ c. rank written (at written c)) (length q.pq.items) i h
                (λ c r s.
                  Precedes-rank q.pq.reversed (top written.cells)
                    (core q.pq.cells (at q.pq (parent c))) (core q.pq.cells (at q.pq c))
                    (valid.ordered c r s))
                (λ c n r. ap (rank_of q.pq.reversed (top written.cells)) (other c r n))))
            λ t z. returned (record {
              valid =
                  Sifted-IsValid q.idx written t q.next written-Agrees
                    (λ b r. ground (arith, written-core b, valid.fresh b, old)) z;
              flag = z.keeps.flag;
              holds = λ w.
                  priority_in-frame q.idx written.cells t.cells w z.keeps.frame ∙ written-view w;
            }))

  -- On a valid queue, Push returns a valid queue in the same direction, in which the value has the
  -- priority, whether it was in the queue before or not, and every other value has the one it had.
  pub push_lem :
      (q : PriorityQueue T) (v : T) (p : ℕ) → IsValid q → Returns (Pushed q v p) (push q v p)
  unfolding push
  push_lem q v p valid = elim (Option-cases (lookup v q.idx)) [
    | inl f ↦ rw (f, push) (push_new_lem q v p valid f)
    | inr (a, f) ↦
        let (i, h, at_i, r, c) = valid.agrees.sound v a f in
        let (x, ex, index, _) = item_lem q.pq i valid.indexed h in
        let ex' : lookup a q.pq.cells ≡ some x = rw (← at_i) ex in
        rw (f, push)
          (push_again_lem q v p a i valid f h at_i x ex' (cc (core-some q.pq.cells a x ex', c))
            index)
  ]
