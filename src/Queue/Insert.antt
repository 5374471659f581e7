-- ===== src/Queue/Insert.antt =====
-- PriorityQueue.Push, for a new value and for one that the queue holds.
use libvegas.Base.{
  ℕ, suc, ◌≤◌, ◌<◌, ◌≡◌, ◌≢◌, refl, ◌∙◌, sym, ap, [], ◌∷◌, ◌++◌, none, some, nat_beq, if◌then◌else◌,
  Eq, ◌==◌, nat_eq, arith, length, ◌⊎◌, inl, inr, Option-cases, Bool-cases, length-append,
  get_or-append, get_or-last,
}
use libvegas.Base.Run.{ok, Returns, returned, Returns-then}
use libvegas.Base.Map.{Map, lookup, insert, lookup-insert, lookup-insert_self, beq_eq, ne_beq}
use libvegas.Base.Int.{pos}
use libvegas.Heap.{parent}
use libvegas.Heap.Up.{Sifted}
use libvegas.Heap.Calls.{push_restores}
use libvegas.Queue.{Item, Pq, PriorityQueue, len, heap_push, heap_interface, push_new}
use libvegas.Queue.Items.{core, top, index_at, at, IsIndexed, item_lem}
use libvegas.Queue.Sift.{sift_laws, Similar-refl}
use libvegas.Queue.Valid.{
  rank, heap-Precedes, Agrees, Similar-Agrees, IsValid, priority_of, priority_in, priority_in-frame,
  Precedes-rank,
}

module _ {T : Type 0} ⦃e : Eq T⦄ where
  -- After the write of a priority: valid, and only the priority of `v` differs.
  pub record Pushed (q : PriorityQueue T) (v : T) (p : ℕ) (r : PriorityQueue T) : Type 0 where
    pub valid : IsValid r
    pub flag : r.pq.reversed ≡ q.pq.reversed
    pub holds : (w : T) → priority_of r w ≡ (if v == w then some p else priority_of q w)

  -- A queue whose slice was sifted into order.
  pub Sifted-IsValid :
      (idx : Map T ℕ) (s t : Pq T) (next : ℕ)
      → Agrees idx s
      → ((a : ℕ) → next ≤ a → core s.cells a ≡ none)
      → Sifted heap_interface (sift_laws s) (length s.items) s t
      → IsValid (record { pq = t; idx = idx; next = next })
  unfolding sift_laws len
  Sifted-IsValid idx s t next h fresh z = record {
    indexed = z.keeps.indexed;
    ordered = λ c p q. heap-Precedes s t (length s.items) c z.keeps z.heap p (rw (← z.size) q);
    agrees = Similar-Agrees idx s t z.keeps h;
    fresh = λ a p. z.keeps.frame a ∙ fresh a p;
  }

  module _ (q : PriorityQueue T) (v : T) (p : ℕ) (valid : IsValid q)
      (absent : lookup v q.idx ≡ none) where
    abbrev x : Item T
    x = record { value = v; priority = p; index = pos (length q.pq.items) }

    -- the slice with the new item at its end
    abbrev grown : Pq T
    grown = record q.pq {
      items = q.pq.items ++ q.next ∷ [];
      cells =
          insert q.next x
            (insert q.next (record { value = v; priority = p; index = pos 0 }) q.pq.cells);
    }

    grown-core :
        (a : ℕ) → core grown.cells a ≡ (if nat_beq q.next a then some (v, p) else core q.pq.cells a)
    grown-core a = ground (
      arith,
      lookup-insert q.next a x
          (insert q.next (record { value = v; priority = p; index = pos 0 }) q.pq.cells),
      lookup-insert q.next a (record { value = v; priority = p; index = pos 0 }) q.pq.cells,
    )

    grown-index :
        (a : ℕ)
        → index_at grown.cells a
          ≡ (if nat_beq q.next a then some (pos (length q.pq.items)) else index_at q.pq.cells a)
    grown-index a = ground (
      arith,
      lookup-insert q.next a x
          (insert q.next (record { value = v; priority = p; index = pos 0 }) q.pq.cells),
      lookup-insert q.next a (record { value = v; priority = p; index = pos 0 }) q.pq.cells,
    )

    held : (i : ℕ) → i < length q.pq.items → at q.pq i ≢ q.next
    held i h =
        let (y, ey, _, _) = item_lem q.pq i valid.indexed h in
        λ same. ground (arith, valid.fresh q.next)

    grown-old : (i : ℕ) → i < length q.pq.items → at grown i ≡ at q.pq i
    grown-old i h = get_or-append q.pq.items (q.next ∷ []) i 0 h

    grown-new : at grown (length q.pq.items) ≡ q.next
    grown-new = get_or-last q.pq.items q.next 0

    grown-length : length grown.items ≡ suc (length q.pq.items)
    grown-length = omega (arith, length-append q.pq.items (q.next ∷ []))

    grown_cases :
        (i : ℕ) → i < length grown.items → (i < length q.pq.items) ⊎ (i ≡ length q.pq.items)
    grown_cases i h = omega (arith, grown-length)

    grown-IsIndexed : IsIndexed grown
    grown-IsIndexed i h = elim (grown_cases i h) [
      | inl old ↦
          ground (arith, grown-index (at grown i), grown-old i old, valid.indexed i old, held i old)
      | inr new ↦ rw new (ground (arith, grown-index (at grown (length q.pq.items)), grown-new))
    ]

    grown-core_old :
        (i : ℕ) → i < length q.pq.items → core grown.cells (at q.pq i) ≡ core q.pq.cells (at q.pq i)
    grown-core_old i h = ground (arith, grown-core (at q.pq i), held i h)

    grown-core_new : core grown.cells q.next ≡ some (v, p)
    grown-core_new = ground (arith, grown-core q.next)

    grown-Agrees : Agrees (insert v q.next q.idx) grown
    grown-Agrees = record {
      sound = λ w a f. elim (Bool-cases (v == w)) [
        | inl same ↦
            let ea : q.next ≡ a = cc (f, lookup-insert v w q.next q.idx, same) in
            (
              length q.pq.items,
              omega (arith, grown-length),
              grown-new ∙ ea,
              p,
              rw (← ea, ← beq_eq v w same) grown-core_new,
            )
        | inr other ↦
            let (i, h, at_i, r, c) =
              valid.agrees.sound w a (cc (f, lookup-insert v w q.next q.idx, other)) in
            (
              i,
              omega (arith, grown-length),
              grown-old i h ∙ at_i,
              r,
              rw (← at_i) (grown-core_old i h ∙ ap (core q.pq.cells) at_i ∙ c),
            )
      ];
      complete = λ i w r h c. elim (grown_cases i h) [
        | inl old ↦
            let f =
              valid.agrees.complete i w r old
                (sym (grown-core_old i old) ∙ ap (core grown.cells) (sym (grown-old i old)) ∙ c) in
            let other = ne_beq v w (λ same. cc (absent, f, same)) in
            lookup-insert v w q.next q.idx ∙ rw other (f ∙ ap some (sym (grown-old i old)))
        | inr new ↦
            let at_i : at grown i ≡ q.next = ap (at grown) new ∙ grown-new in
            let same : v ≡ w = cc (grown-core_new, ap (core grown.cells) at_i, c) in
            rw (← same) (lookup-insert_self v q.next q.idx ∙ ap some (sym at_i))
      ];
    }

    grown-view :
        (w : T)
        → priority_in (insert v q.next q.idx) grown.cells w
          ≡ (if v == w then some p else priority_of q w)
    grown-view w = elim (Bool-cases (v == w)) [
      | inl same ↦ rw (lookup-insert v w q.next q.idx, same, priority_in) (rw grown-core_new refl)
      | inr other ↦ elim (Option-cases (lookup w q.idx)) [
        | inl gone ↦ rw (lookup-insert v w q.next q.idx, other, gone, priority_in) refl
        | inr (a, f) ↦
            let (i, h, at_i, r, c) = valid.agrees.sound w a f in
            let kept : core grown.cells a ≡ core q.pq.cells a = rw (← at_i) (grown-core_old i h) in
            rw (lookup-insert v w q.next q.idx, other, f, priority_in) (rw kept refl)
      ]
    ]

    -- the slice with a cell for the new item
    abbrev room : Pq T
    room = record q.pq {
      cells = insert q.next (record { value = v; priority = p; index = pos 0 }) q.pq.cells;
    }

    pushed : heap_push q.next room ≡ ok grown
    unfolding heap_push
    pushed =
        rw
          (lookup-insert_self q.next (record { value = v; priority = p; index = pos 0 }) q.pq.cells)

    pub push_new_lem : Returns (Pushed q v p) (push_new q v p)
    unfolding push_new sift_laws len
    push_new_lem =
        Returns-then
          (push_restores heap_interface (sift_laws grown) room grown q.next pushed
            (Similar-refl grown grown-IsIndexed) grown-length
            (λ c h. ap (rank grown) (grown-old c h))
            (λ c h k.
              Precedes-rank q.pq.reversed (top grown.cells) (core grown.cells (at q.pq (parent c)))
                (core grown.cells (at q.pq c))
                (rw (grown-core_old c k, grown-core_old (parent c) (omega arith))
                  (valid.ordered c h k))))
          λ t z. returned (record {
            valid =
                Sifted-IsValid (insert v q.next q.idx) grown t (suc q.next) grown-Agrees
                  (λ a h. ground (arith, grown-core a, valid.fresh a)) z;
            flag = z.keeps.flag;
            holds = λ w.
                priority_in-frame (insert v q.next q.idx) grown.cells t.cells w z.keeps.frame
                ∙ grown-view w;
          })
