-- ===== src/Queue/Items.antt =====
-- What a queue's cells and slice say: the parts that the heap algorithms move and those they keep.
use libvegas.Base.{
  ℕ, ◌-◌, ◌≤◌, ◌<◌, ◌≡◌, ◌∙◌, sym, Bool, [], ◌∷◌, Option, none, some, max, ltb, nat_beq,
  if◌then◌else◌, nat_eq, arith, length, get_or, get_elem?, get_elem?-get_or, Option-cases, inl, inr,
  ap,
}
use libvegas.Base.Run.{ok}
use libvegas.Base.Map.{Map, lookup, insert, lookup-insert}
use libvegas.Base.Int.{ℤ, pos}
use libvegas.Queue.{Item, Pq, item_at, less, set_index}

module _ {T : Type 0} where
  -- The value and the priority of an item, and its index.
  abbrev pub core : Map ℕ (Item T) → ℕ → Option (T × ℕ)
  core m a = elim (lookup a m) [ none ↦ none | some x ↦ some (x.value, x.priority) ]

  abbrev pub index_at : Map ℕ (Item T) → ℕ → Option ℤ
  index_at m a = elim (lookup a m) [ none ↦ none | some x ↦ some x.index ]

  abbrev pub at : Pq T → ℕ → ℕ
  at s i = get_or s.items i 0

  -- The greatest priority of all cells.
  pub top : Map ℕ (Item T) → ℕ
  top [] = 0
  top ((a, x) ∷ m) = max x.priority (top m)

  abbrev pub prio : Option (T × ℕ) → ℕ
  prio none = 0
  prio (some (v, p)) = p

  -- The order of the queue as an order of numbers, for priorities up to the bound.
  abbrev pub rank_of : Bool → ℕ → Option (T × ℕ) → ℕ
  rank_of reversed bound o = if reversed then bound - prio o else prio o

  le_top : (m : Map ℕ (Item T)) (a : ℕ) (x : Item T) → lookup a m ≡ some x → x.priority ≤ top m
  unfolding top lookup
  le_top [] a x h = cc
  le_top ((b, y) ∷ m) a x h = ground (arith, le_top m a x)

  less_by_rank :
      (flag reversed : Bool) (bound p q : ℕ) (v w : T)
      → flag ≡ reversed
      → p ≤ bound
      → q ≤ bound
      → (if flag then ltb q p else ltb p q)
        ≡ ltb (rank_of reversed bound (some (v, p))) (rank_of reversed bound (some (w, q)))
  less_by_rank flag reversed bound p q v w e h k = ground arith

  pub core-some :
      (m : Map ℕ (Item T)) (a : ℕ) (x : Item T)
      → lookup a m ≡ some x
      → core m a ≡ some (x.value, x.priority)
  core-some m a x e = rw (e, core)

  -- A value and a priority come from an item.
  pub core-item :
      (m : Map ℕ (Item T)) (a : ℕ) (v : T) (p : ℕ)
      → core m a ≡ some (v, p)
      → (x : Item T) × (lookup a m ≡ some x) × (x.value ≡ v) × (x.priority ≡ p)
  core-item m a v p h = elim (Option-cases (lookup a m)) [
    | inl e ↦ absurd (ground arith)
    | inr (x, e) ↦ (x, e, ground arith, ground arith)
  ]

  core_le_top : (m : Map ℕ (Item T)) (a : ℕ) (v : T) (p : ℕ) → core m a ≡ some (v, p) → p ≤ top m
  core_le_top m a v p h = let (x, e, _, same) = core-item m a v p h in rw (← same) (le_top m a x e)

  pub prio-le-top : (m : Map ℕ (Item T)) (a : ℕ) → prio (core m a) ≤ top m
  prio-le-top m a = elim (Option-cases (core m a)) [
    | inl e ↦ rw e (omega arith)
    | inr ((v, p), e) ↦ rw e (core_le_top m a v p e)
  ]

  -- The slice and the cells agree on every index.
  abbrev pub IsIndexed : Pq T → Type 0
  IsIndexed s = (i : ℕ) → i < length s.items → index_at s.cells (at s i) ≡ some (pos i)

  pub at-injective :
      (s : Pq T) (i j : ℕ)
      → IsIndexed s
      → i < length s.items
      → j < length s.items
      → at s i ≡ at s j
      → i ≡ j
  at-injective s i j h p q e = cc (h i p, h j q, ap (index_at s.cells) e)

  -- Every entry of one slice is in the other.
  abbrev pub Within : Pq T → Pq T → Type 0
  Within s t = (c : ℕ) → c < length s.items → (d : ℕ) × (d < length t.items) × (at t d ≡ at s c)

  -- What an exchange of two positions preserves.
  pub record Similar (s t : Pq T) : Type 0 where
    pub flag : t.reversed ≡ s.reversed
    pub size : length t.items ≡ length s.items
    pub indexed : IsIndexed t
    pub frame : (a : ℕ) → core t.cells a ≡ core s.cells a
    pub from : Within t s
    pub onto : Within s t

  pub item_lem :
      (s : Pq T) (i : ℕ)
      → IsIndexed s
      → i < length s.items
      → (x : Item T) × (lookup (at s i) s.cells ≡ some x) × (x.index ≡ pos i) × (item_at s i ≡ ok x)
  unfolding item_at
  item_lem s i h p = elim (Option-cases (lookup (at s i) s.cells)) [
    | inl e ↦ absurd (ground (arith, h i p))
    | inr (x, e) ↦ (x, e, ground (arith, h i p), rw (get_elem?-get_or s.items i 0 p, e))
  ]

  pub less_lem :
      (s t : Pq T) (i j : ℕ)
      → Similar s t
      → i < length t.items
      → j < length t.items
      → less t i j
        ≡ ok (
            ltb
              (rank_of s.reversed (top s.cells) (core s.cells (at t i)))
              (rank_of s.reversed (top s.cells) (core s.cells (at t j))))
  unfolding less
  less_lem s t i j k p q =
      let (x, ex, _, ix) = item_lem t i k.indexed p in
      let (y, ey, _, iy) = item_lem t j k.indexed q in
      let cx = sym (k.frame (at t i)) ∙ core-some t.cells (at t i) x ex in
      let cy = sym (k.frame (at t j)) ∙ core-some t.cells (at t j) y ey in
      rw (ix, iy, cx, cy)
        (ap ok (
          less_by_rank t.reversed s.reversed (top s.cells) x.priority y.priority x.value y.value
            k.flag (core_le_top s.cells (at t i) x.value x.priority cx)
            (core_le_top s.cells (at t j) y.value y.priority cy)))

  -- Writing an index changes that index alone.
  pub set_index_lem :
      (s : Pq T) (i : ℕ) (n : ℤ) (a : ℕ) (x : Item T)
      → get_elem? s.items i ≡ some a
      → lookup a s.cells ≡ some x
      → set_index s i n ≡ ok (record s { cells = insert a (record x { index = n }) s.cells })
  unfolding set_index
  set_index_lem s i n a x ea ex = rw (ea, ex)

  pub core-insert :
      (m : Map ℕ (Item T)) (a : ℕ) (x y : Item T) (b : ℕ)
      → lookup a m ≡ some x
      → (y.value ≡ x.value) × (y.priority ≡ x.priority)
      → core (insert a y m) b ≡ core m b
  core-insert m a x y b ex same = ground (arith, lookup-insert a b y m)

  pub index_at-insert :
      (m : Map ℕ (Item T)) (a : ℕ) (y : Item T) (b : ℕ)
      → index_at (insert a y m) b ≡ (if nat_beq a b then some y.index else index_at m b)
  index_at-insert m a y b = ground (arith, lookup-insert a b y m)
