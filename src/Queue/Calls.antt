-- ===== src/Queue/Calls.antt =====
-- PriorityQueue.Peek, Pop and Remove against the abstract view.
use libvegas.Base.{
  ℕ, suc, ◌-◌, ◌<◌, ◌≡◌, refl, ◌∙◌, sym, ap, subst₂, Bool, true, false, List, ◌∷◌, Option, none,
  some, Eq, ◌==◌, nat_eq, arith, length, inl, inr, List-cases, Option-cases, Bool-cases,
}
use libvegas.Base.Run.{ok, Returns, returned, returned_at, Returns-then}
use libvegas.Base.Map.{lookup, beq_eq}
use libvegas.Heap.Order.{root_least}
use libvegas.Heap.Calls.{pop_restores, remove_restores}
use libvegas.Queue.{
  Item, PriorityQueue, len, heap_interface, item_at, new, pop, remove_at, remove_value, peek,
}
use libvegas.Queue.Items.{core, core-some, core-item, top, at, prio, prio-le-top, item_lem}
use libvegas.Queue.Sift.{sift_laws, Similar-refl}
use libvegas.Queue.Valid.{
  Precedes, rank, rank-Precedes, ordered-IsHeap, IsValid, priority_of, priority_in,
}
use libvegas.Queue.Delete.{Deleted, Dropped, heap_pop-Dropped}

abbrev pub is_some {ℓ} : {A : Type ℓ} → Option A → Bool
is_some none = false
is_some (some a) = true

module _ {T : Type 0} ⦃e : Eq T⦄ where
  -- `v` is in the queue, and no value of the queue precedes it.
  abbrev pub IsFirst : PriorityQueue T → T → Type 0
  IsFirst q v =
      (p : ℕ) × (priority_of q v ≡ some p)
      × ((w : T) (p' : ℕ) → priority_of q w ≡ some p' → Precedes q.pq.reversed p p')

  -- `none` for the empty queue, and else a first value.
  abbrev pub Peeked : PriorityQueue T → Option T → Type 0
  Peeked q none = (w : T) → priority_of q w ≡ none
  Peeked q (some v) = IsFirst q v

  view_none : (q : PriorityQueue T) (w : T) → lookup w q.idx ≡ none → priority_of q w ≡ none
  view_none q w f = rw (f, priority_in) refl

  view_some :
      (q : PriorityQueue T) (w : T) (a : ℕ) (v : T) (p : ℕ)
      → lookup w q.idx ≡ some a
      → core q.pq.cells a ≡ some (v, p)
      → priority_of q w ≡ some p
  view_some q w a v p f c = rw (f, priority_in) (rw c refl)

  -- A value of the queue has an item in the slice.
  pub priority_of-item :
      (q : PriorityQueue T) (w : T) (p : ℕ)
      → IsValid q
      → priority_of q w ≡ some p
      → (i : ℕ) × (i < length q.pq.items)
        × (core q.pq.cells (at q.pq i) ≡ some (w, p))
        × (lookup w q.idx ≡ some (at q.pq i))
  priority_of-item q w p valid h = elim (Option-cases (lookup w q.idx)) [
    | inl f ↦ absurd (cc (h, view_none q w f))
    | inr (a, f) ↦
        let (i, r, at_i, u, c) = valid.agrees.sound w a f in
        let same : u ≡ p = cc (view_some q w a w u f c, h) in
        (i, r, ap (core q.pq.cells) at_i ∙ c ∙ ap (λ n. some (w, n)) same, f ∙ ap some (sym at_i))
  ]

  pub item-priority_of :
      (q : PriorityQueue T) (i : ℕ) (w : T) (p : ℕ)
      → IsValid q
      → i < length q.pq.items
      → core q.pq.cells (at q.pq i) ≡ some (w, p)
      → priority_of q w ≡ some p
  item-priority_of q i w p valid r c =
      view_some q w (at q.pq i) w p (valid.agrees.complete i w p r c) c

  root-IsFirst :
      (q : PriorityQueue T) (v : T) (p : ℕ)
      → IsValid q
      → 0 < length q.pq.items
      → core q.pq.cells (at q.pq 0) ≡ some (v, p)
      → IsFirst q v
  root-IsFirst q v p valid r c = (
    p,
    item-priority_of q 0 v p valid r c,
    λ w p' h.
        let (i, s, c', _) = priority_of-item q w p' valid h in
        subst₂ (Precedes q.pq.reversed) (ap prio c) (ap prio c') (
          rank-Precedes q.pq.reversed (top q.pq.cells) (core q.pq.cells (at q.pq 0))
            (core q.pq.cells (at q.pq i))
            (root_least (λ c. rank q.pq (at q.pq c)) (length q.pq.items) i
              (ordered-IsHeap q.pq valid.ordered) s)
            (prio-le-top q.pq.cells _) (prio-le-top q.pq.cells _)),
  )

  peek-some :
      (q : PriorityQueue T) (a : ℕ) (rest : List ℕ) (x : Item T)
      → q.pq.items ≡ a ∷ rest
      → item_at q.pq 0 ≡ ok x
      → peek q ≡ ok (some x.value)
  unfolding peek
  peek-some q a rest x full ix = rw (full, peek) (rw ix refl)

  -- A valid queue with items has one at the root, which `peek` shows.
  root_item :
      (q : PriorityQueue T)
      → IsValid q
      → 0 < length q.pq.items
      → (x : Item T) × (peek q ≡ ok (some x.value))
        × (core q.pq.cells (at q.pq 0) ≡ some (x.value, x.priority))
  root_item q valid r =
      let (x, ex, _, ix) = item_lem q.pq 0 valid.indexed r in
      let shows : peek q ≡ ok (some x.value) = elim (List-cases q.pq.items) [
        | inl empty ↦ absurd (omega (arith, ap length empty))
        | inr (a, rest, full) ↦ peek-some q a rest x full ix
      ] in
      (x, shows, core-some q.pq.cells (at q.pq 0) x ex)

  -- On a valid queue, Peek returns a value that no value of the queue precedes, or none when the
  -- queue holds nothing.
  pub peek_lem : (q : PriorityQueue T) → IsValid q → Returns (Peeked q) (peek q)
  unfolding peek
  peek_lem q valid = elim (List-cases q.pq.items) [
    | inl empty ↦ returned_at {a = none} (rw (empty, peek) refl) λ w.
        elim (Option-cases (priority_of q w)) [
          | inl gone ↦ gone
          | inr (p, h) ↦
              let (i, r, _, _) = priority_of-item q w p valid h in
              absurd (omega (arith, ap length empty))
        ]
    | inr (a, rest, full) ↦
        let r : 0 < length q.pq.items = omega (arith, ap length full) in
        let (x, shows, c) = root_item q valid r in
        returned_at shows (root-IsFirst q x.value x.priority valid r c)
  ]

  pub peek-some_pos : (q : PriorityQueue T) (v : T) → peek q ≡ ok (some v) → 0 < length q.pq.items
  unfolding peek
  peek-some_pos q v h = elim (List-cases q.pq.items) [
    | inl empty ↦ let shows : peek q ≡ ok none = rw (empty, peek) refl in absurd (cc (h, shows))
    | inr (a, rest, full) ↦ omega (arith, ap length full)
  ]

  -- On a valid queue that is not empty, Pop returns the value that Peek shows, which no value of
  -- the queue precedes, and a valid queue without that value and with the priorities of the
  -- others.
  pub pop_lem :
      (q : PriorityQueue T)
      → IsValid q
      → 0 < length q.pq.items
      → Returns (λ r. (peek q ≡ ok (some r.0)) × IsFirst q r.0 × Deleted q r.0 r.1) (pop q)
  unfolding pop len sift_laws
  pop_lem q valid r =
      let n = length q.pq.items - 1 in
      let size : length q.pq.items ≡ suc n = omega arith in
      let (x, shows, c) = root_item q valid r in
      Returns-then
        (pop_restores heap_interface (sift_laws q.pq)
          {Q = Dropped q x.value x.priority 0 n valid size (omega arith) c} q.pq n size
          (Similar-refl q.pq valid.indexed) (rw (← size) (ordered-IsHeap q.pq valid.ordered))
          (heap_pop-Dropped q x.value x.priority 0 n valid size (omega arith) c))
        λ (a, s) (here, deleted, kept).
          let (y, ey, value, _) =
            core-item s.cells a x.value x.priority (kept a ∙ ap (core q.pq.cells) here ∙ c) in
          rw (ey, value) (returned (shows, root-IsFirst q x.value x.priority valid r c, deleted))

  absent-Deleted : (q : PriorityQueue T) (v : T) → IsValid q → lookup v q.idx ≡ none → Deleted q v q
  absent-Deleted q v valid f = record {
    valid = valid;
    flag = refl;
    holds = λ w. elim (Bool-cases (v == w)) [
      | inl same ↦ rw same (view_none q w (rw (← beq_eq v w same) f))
      | inr differ ↦ rw differ refl
    ];
  }

  -- On a valid queue, Remove returns whether the value was in the queue, and a valid queue without
  -- it and with the priorities of the others.
  pub remove_value_lem :
      (q : PriorityQueue T) (v : T)
      → IsValid q
      → Returns (λ r. (r.0 ≡ is_some (priority_of q v)) × Deleted q v r.1) (remove_value q v)
  unfolding remove_value remove_at len sift_laws
  remove_value_lem q v valid = elim (Option-cases (lookup v q.idx)) [
    | inl f ↦
        rw (f, remove_value)
          (returned (ap is_some (sym (view_none q v f)), absent-Deleted q v valid f))
    | inr (a, f) ↦
        let (i, h, at_i, p, c) = valid.agrees.sound v a f in
        let n = length q.pq.items - 1 in
        let size : length q.pq.items ≡ suc n = omega arith in
        let (x, ex, index, _) = item_lem q.pq i valid.indexed h in
        let ex' : lookup a q.pq.cells ≡ some x = rw (← at_i) ex in
        let here = ap (core q.pq.cells) at_i ∙ c in
        rw (f, remove_value)
          (rw (ex', index)
            (Returns-then
              (Returns-then
                (remove_restores heap_interface (sift_laws q.pq)
                  {Q = Dropped q v p i n valid size (omega arith) here} q.pq i n size (omega arith)
                  (Similar-refl q.pq valid.indexed)
                  (rw (← size) (ordered-IsHeap q.pq valid.ordered))
                  (heap_pop-Dropped q v p i n valid size (omega arith) here))
                λ r d. returned d.1)
              λ s d. returned (sym (ap is_some (view_some q v a v p f c)), d)))
  ]

  -- For both directions, New gives a valid queue, and no value has a priority in it.
  pub new-IsValid :
      (reversed : Bool)
      → IsValid (new {T = T} reversed) × ((w : T) → priority_of (new reversed) w ≡ none)
  unfolding new lookup
  new-IsValid reversed = (
    record {
      indexed = λ i h. absurd (omega arith);
      ordered = λ c h k. absurd (omega arith);
      agrees = record {
        sound = λ v a f. absurd (cc f);
        complete = λ i v p h c. absurd (omega arith);
      };
      fresh = λ a h. refl;
    },
    λ w. refl,
  )
