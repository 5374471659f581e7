-- ===== src/Queue/Sift.antt =====
-- The queue's slice meets what container/heap asks for.
use libvegas.Base.{
  ℕ, ◌<◌, ◌≡◌, refl, ◌∙◌, List, some, nat_beq, if◌then◌else◌, nat_eq, arith, length, get_or,
  get_elem?, set, get_elem?-get_or, length-set, get_or-set, ap,
}
use libvegas.Base.Run.{ok, Returns, returned_at}
use libvegas.Base.Map.{Map, lookup, insert, lookup-insert}
use libvegas.Base.Int.{pos}
use libvegas.Heap.Order.{Swapped, Laws}
use libvegas.Queue.{Item, Pq, len, swap, heap_interface}
use libvegas.Queue.Items.{
  core, index_at, at, top, rank_of, IsIndexed, Within, Similar, item_lem, less_lem, set_index_lem,
  core-insert, index_at-insert,
}

module _ {T : Type 0} where
  -- `items` with positions `i` and `j` exchanged
  abbrev exchanged : Pq T → ℕ → ℕ → List ℕ
  exchanged s i j = set (set s.items i (at s j)) j (at s i)

  module _ (s : Pq T) (i j : ℕ) (p : i < length s.items) (q : j < length s.items) where
    exchanged-at :
        (c : ℕ)
        → get_or (exchanged s i j) c 0
          ≡ (if nat_beq c j then at s i else if nat_beq c i then at s j else at s c)
    exchanged-at c = ground (
      arith,
      length-set s.items i (at s j),
      get_or-set (set s.items i (at s j)) j c (at s i) 0,
      get_or-set s.items i c (at s j) 0,
    )

    exchanged-length : length (exchanged s i j) ≡ length s.items
    exchanged-length = length-set _ j (at s i) ∙ length-set s.items i (at s j)

    exchanged-get :
        (c v : ℕ)
        → c < length s.items
        → get_or (exchanged s i j) c 0 ≡ v
        → get_elem? (exchanged s i j) c ≡ some v
    exchanged-get c v h e =
        get_elem?-get_or (exchanged s i j) c 0 (rw exchanged-length h) ∙ ap some e

    module _ (x y : Item T) (ex : lookup (at s i) s.cells ≡ some x)
        (ey : lookup (at s j) s.cells ≡ some y) where
      -- the cells after the first write, the item of the second, and the state after both
      abbrev once : Map ℕ (Item T)
      once = insert (at s j) (record y { index = pos i }) s.cells

      abbrev other : Item T
      other = if nat_beq (at s j) (at s i) then record y { index = pos i } else x

      abbrev result : Pq T
      result = record s {
        items = exchanged s i j;
        cells = insert (at s i) (record other { index = pos j }) once;
      }

      lookup-once : lookup (at s i) once ≡ some other
      lookup-once =
          ground (arith, lookup-insert (at s j) (at s i) (record y { index = pos i }) s.cells)

      swap_lem : swap s i j ≡ ok result
      unfolding swap
      swap_lem = rw (
        get_elem?-get_or s.items j 0 q,
        get_elem?-get_or s.items i 0 p,
        set_index_lem (record s { items = exchanged s i j }) i (pos i) (at s j) y
            (exchanged-get i (at s j) p (ground (arith, exchanged-at i))) ey,
        set_index_lem (record s { items = exchanged s i j; cells = once }) j (pos j) (at s i) other
            (exchanged-get j (at s i) q (ground (arith, exchanged-at j))) lookup-once,
      )

      result-core : (c : ℕ) → core result.cells c ≡ core s.cells c
      result-core c =
          core-insert once (at s i) other (record other { index = pos j }) c lookup-once
            (refl, refl)
          ∙ core-insert s.cells (at s j) y (record y { index = pos i }) c ey (refl, refl)

      result-index :
          (c : ℕ)
          → index_at result.cells c ≡ (
              if nat_beq (at s i) c
              then some (pos j)
              else if nat_beq (at s j) c
              then some (pos i)
              else index_at s.cells c)
      result-index c = ground (
        arith,
        index_at-insert once (at s i) (record other { index = pos j }) c,
        index_at-insert s.cells (at s j) (record y { index = pos i }) c,
      )

      result-IsIndexed : IsIndexed s → IsIndexed result
      result-IsIndexed h c r = ground (
        arith,
        exchanged-length,
        exchanged-at c,
        h c,
        h i,
        h j,
        result-index (get_or (exchanged s i j) c 0),
      )

    -- where the entry of position `c` was, or goes
    abbrev moved : ℕ → ℕ
    moved c = if nat_beq c j then i else if nat_beq c i then j else c

    moved-lt : (c : ℕ) → c < length s.items → moved c < length s.items
    moved-lt c h = ground arith

    moved-from : (c : ℕ) → at s (moved c) ≡ get_or (exchanged s i j) c 0
    moved-from c = ground (arith, exchanged-at c)

    moved-onto : (c : ℕ) → get_or (exchanged s i j) (moved c) 0 ≡ at s c
    moved-onto c = ground (arith, exchanged-at i, exchanged-at j, exchanged-at c)

  Within-trans : (s t u : Pq T) → Within s t → Within t u → Within s u
  Within-trans s t u h k c p = let (d, q, e) = h c p in let (d', q', e') = k d q in (d', q', e' ∙ e)

  pub Similar-refl : (s : Pq T) → IsIndexed s → Similar s s
  Similar-refl s h = record {
    flag = refl;
    size = refl;
    indexed = h;
    frame = λ a. refl;
    from = λ c p. (c, p, refl);
    onto = λ c p. (c, p, refl);
  }

  pub swap-Similar :
      (s t : Pq T) (i j : ℕ)
      → Similar s t
      → i < length t.items
      → j < length t.items
      → Returns
          (λ u. Similar s u × (length u.items ≡ length t.items) × Swapped (at t) i j (at u))
          (swap t i j)
  swap-Similar s t i j k p q =
      let (x, ex, _, _) = item_lem t i k.indexed p in
      let (y, ey, _, _) = item_lem t j k.indexed q in
      let n = exchanged-length t i j p q in
      let ex_at = exchanged-at t i j p q in
      returned_at (swap_lem t i j p q x y ex ey) (
        record {
          flag = k.flag;
          size = n ∙ k.size;
          indexed = result-IsIndexed t i j p q x y ex ey k.indexed;
          frame = λ a. result-core t i j p q x y ex ey a ∙ k.frame a;
          from =
              Within-trans (result t i j p q x y ex ey) t s
                (λ c h.
                  (moved t i j p q c, moved-lt t i j p q c (rw (← n) h), moved-from t i j p q c))
                k.from;
          onto =
              Within-trans s t (result t i j p q x y ex ey) k.onto
                (λ c h. (moved t i j p q c, rw n (moved-lt t i j p q c h), moved-onto t i j p q c));
        },
        n,
        ex_at,
      )

  -- Below, `s` is the state before a call of container/heap: its values and priorities stay.
  unfoldable pub sift_laws : (s : Pq T) → Laws heap_interface ℕ (Similar s)
  unfolding len
  sift_laws s = record {
    at = at;
    rank = λ a. rank_of s.reversed (top s.cells) (core s.cells a);
    less_rank = λ t i j k. less_lem s t i j k;
    swap_Swapped = λ t i j k. swap-Similar s t i j k;
  }
