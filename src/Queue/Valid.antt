-- ===== src/Queue/Valid.antt =====
-- The invariant of a queue, its abstract view, and what a sift does to both.
use libvegas.Base.{
  ℕ, ◌≤◌, ◌<◌, ◌≡◌, ◌∙◌, sym, ap, Bool, true, false, Option, none, some, Eq, nat_eq, arith, length,
  inl, inr, Option-cases,
}
use libvegas.Base.Map.{Map, lookup}
use libvegas.Heap.{parent}
use libvegas.Heap.Order.{IsHeap}
use libvegas.Queue.{Item, Pq, PriorityQueue}
use libvegas.Queue.Items.{core, at, top, prio, rank_of, IsIndexed, Similar, prio-le-top}

-- `p` may stand before `q` in a queue of this direction.
abbrev pub Precedes : Bool → ℕ → ℕ → Type 0
Precedes false p q = p ≤ q
Precedes true p q = q ≤ p

pub rank-Precedes :
    {T : Type 0} (reversed : Bool) (bound : ℕ) (o o' : Option (T × ℕ))
    → rank_of reversed bound o ≤ rank_of reversed bound o'
    → prio o ≤ bound
    → prio o' ≤ bound
    → Precedes reversed (prio o) (prio o')
rank-Precedes true bound o o' h p q = omega arith
rank-Precedes false bound o o' h p q = h

pub Precedes-rank :
    {T : Type 0} (reversed : Bool) (bound : ℕ) (o o' : Option (T × ℕ))
    → Precedes reversed (prio o) (prio o')
    → rank_of reversed bound o ≤ rank_of reversed bound o'
Precedes-rank true bound o o' h = omega arith
Precedes-rank false bound o o' h = h

module _ {T : Type 0} where
  abbrev pub priority_at : Pq T → ℕ → ℕ
  priority_at s i = prio (core s.cells (at s i))

  -- Every edge of the heap is in the order of the queue.
  abbrev pub IsOrdered : Pq T → Type 0
  IsOrdered s =
      (c : ℕ)
      → 0 < c
      → c < length s.items
      → Precedes s.reversed (priority_at s (parent c)) (priority_at s c)

  -- The rank that a sift from the state `s` goes by.
  abbrev pub rank : Pq T → ℕ → ℕ
  rank s a = rank_of s.reversed (top s.cells) (core s.cells a)

  pub ordered-IsHeap : (s : Pq T) → IsOrdered s → IsHeap (λ c. rank s (at s c)) (length s.items)
  ordered-IsHeap s h c p q =
      Precedes-rank s.reversed (top s.cells) (core s.cells (at s (parent c)))
        (core s.cells (at s c)) (h c p q)

  -- A heap by rank, in the state that a sift leaves, on the first `n` positions.
  pub heap-Precedes :
      (s t : Pq T) (n c : ℕ)
      → Similar s t
      → IsHeap (λ c. rank s (at t c)) n
      → 0 < c
      → c < n
      → Precedes t.reversed (priority_at t (parent c)) (priority_at t c)
  heap-Precedes s t n c k h p q =
      rw (k.flag, k.frame (at t c), k.frame (at t (parent c)))
        (rank-Precedes s.reversed (top s.cells) (core s.cells (at t (parent c)))
          (core s.cells (at t c)) (h c p q) (prio-le-top s.cells _) (prio-le-top s.cells _))

module _ {T : Type 0} ⦃e : Eq T⦄ where
  -- `idx` leads to the items of the slice by their values, and to nothing else.
  pub record Agrees (idx : Map T ℕ) (s : Pq T) : Type 0 where
    pub sound :
        (v : T) (a : ℕ)
        → lookup v idx ≡ some a
        → (i : ℕ) × (i < length s.items) × (at s i ≡ a) × (p : ℕ) × (core s.cells a ≡ some (v, p))
    pub complete :
        (i : ℕ) (v : T) (p : ℕ)
        → i < length s.items
        → core s.cells (at s i) ≡ some (v, p)
        → lookup v idx ≡ some (at s i)

  pub Similar-Agrees : (idx : Map T ℕ) (s t : Pq T) → Similar s t → Agrees idx s → Agrees idx t
  Similar-Agrees idx s t k h = record {
    sound = λ v a f.
        let (i, p, at_i, w, c) = h.sound v a f in
        let (d, q, at_d) = k.onto i p in (d, q, at_d ∙ at_i, w, k.frame a ∙ c);
    complete = λ i v p q c.
        let (d, r, at_d) = k.from i q in
        h.complete d v p r (ap (core s.cells) at_d ∙ sym (k.frame (at t i)) ∙ c) ∙ ap some at_d;
  }

  pub record IsValid (q : PriorityQueue T) : Type 0 where
    pub indexed : IsIndexed q.pq
    pub ordered : IsOrdered q.pq
    pub agrees : Agrees q.idx q.pq
    pub fresh : (a : ℕ) → q.next ≤ a → core q.pq.cells a ≡ none

  abbrev pub priority_in : Map T ℕ → Map ℕ (Item T) → T → Option ℕ
  priority_in idx m v = elim (lookup v idx) [
    | none ↦ none
    | some a ↦ elim (core m a) [ none ↦ none | some (_, p) ↦ some p ]
  ]

  -- The abstract view: the priority of each value that the queue holds.
  abbrev pub priority_of : PriorityQueue T → T → Option ℕ
  priority_of q = priority_in q.idx q.pq.cells

  pub priority_in-frame :
      (idx : Map T ℕ) (m n : Map ℕ (Item T)) (w : T)
      → ((a : ℕ) → core n a ≡ core m a)
      → priority_in idx n w ≡ priority_in idx m w
  priority_in-frame idx m n w f = elim (Option-cases (lookup w idx)) [
    | inl h ↦ rw (h, priority_in)
    | inr (a, h) ↦ rw (h, priority_in) (rw (f a))
  ]
