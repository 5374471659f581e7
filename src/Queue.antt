-- ===== src/Queue.antt =====
-- primitives/priority_queue.go: a priority queue of distinct values, over container/heap.
-- `idx` and the heap's slice share their items, so items are cells of a store, named by address.
-- A priority is a finite float64, of which only the order matters: a number in that order.
pub mod Items
pub mod Valid
pub mod Sift
pub mod Insert
pub mod Update
pub mod Delete
pub mod Calls
pub mod Refinement
use libvegas.Base.{
  ℕ, suc, ◌-◌, Bool, true, false, List, [], ◌∷◌, ◌++◌, Option, none, some, ltb, if◌then◌else◌, Eq,
  length, get_elem?, set, take, nat_eq,
}
use libvegas.Base.Run.{Run, ok, panic, ◌>>=◌, or_panic}
use libvegas.Base.Map.{Map, lookup, insert, remove}
use libvegas.Base.Int.{ℤ, pos, negsuc}
use libvegas.Heap
use libvegas.Heap.{Interface}

pub record Item (T : Type 0) : Type 0 where
  pub value : T
  pub priority : ℕ
  pub index : ℤ

-- `items` holds addresses of `cells`.
pub record Pq (T : Type 0) : Type 0 where
  pub items : List ℕ
  pub reversed : Bool
  pub cells : Map ℕ (Item T)

-- A new item goes to the address `next`.
pub record PriorityQueue (T : Type 0) : Type 0 where
  pub pq : Pq T
  pub idx : Map T ℕ
  pub next : ℕ

module _ {T : Type 0} where
  unfoldable pub len : Pq T → ℕ
  len s = length s.items

  -- `pq.items[i]`, a pointer, and what it points to
  unfoldable pub item_at : Pq T → ℕ → Run (Item T)
  item_at s i = do a ← or_panic (get_elem? s.items i); or_panic (lookup a s.cells)

  unfoldable pub less : Pq T → ℕ → ℕ → Run Bool
  unfolding item_at
  less s i j = do
    x ← item_at s i
    y ← item_at s j
    ok (if s.reversed then ltb y.priority x.priority else ltb x.priority y.priority)

  -- `pq.items[i].index = n`
  unfoldable pub set_index : Pq T → ℕ → ℤ → Run (Pq T)
  set_index s i n = do
    a ← or_panic (get_elem? s.items i)
    x ← or_panic (lookup a s.cells)
    ok (record s { cells = insert a (record x { index = n }) s.cells })

  unfoldable pub swap : Pq T → ℕ → ℕ → Run (Pq T)
  unfolding set_index
  swap s i j = do
    b ← or_panic (get_elem? s.items j)
    a ← or_panic (get_elem? s.items i)
    t ← set_index (record s { items = set (set s.items i b) j a }) i (pos i)
    set_index t j (pos j)

  unfoldable pub heap_push : ℕ → Pq T → Run (Pq T)
  heap_push a s = do
    x ← or_panic (lookup a s.cells)
    ok (record s {
      items = s.items ++ a ∷ [];
      cells = insert a (record x { index = pos (length s.items) }) s.cells;
    })

  unfoldable pub heap_pop : Pq T → Run (ℕ × Pq T)
  heap_pop s = do
    let n = length s.items
    a ← or_panic (get_elem? s.items (n - 1))
    x ← or_panic (lookup a s.cells)
    ok (
      a,
      record s {
        items = take (n - 1) s.items;
        cells = insert a (record x { index = negsuc 0 }) s.cells;
      },
    )

  abbrev pub heap_interface : Interface (Pq T) ℕ
  heap_interface = record { len = len; less = less; swap = swap; push = heap_push; pop = heap_pop }

  unfoldable pub new : Bool → PriorityQueue T
  new reversed = record {
    pq = record { items = []; reversed = reversed; cells = [] };
    idx = [];
    next = 0;
  }

  -- `none` for the pair of a zero value and `true`
  unfoldable pub peek : PriorityQueue T → Run (Option T)
  unfolding item_at
  peek q = elim q.pq.items [ [] ↦ ok none | _ ∷ _ ↦ item_at q.pq 0 >>= λ x. ok (some x.value) ]

module _ {T : Type 0} ⦃e : Eq T⦄ where
  -- a value that `idx` does not have
  unfoldable pub push_new : PriorityQueue T → T → ℕ → Run (PriorityQueue T)
  push_new q v priority = do
    let a = q.next
    let x : Item T = record { value = v; priority = priority; index = pos 0 }
    s ← Heap.push heap_interface a (record q.pq { cells = insert a x q.pq.cells })
    ok (record { pq = s; idx = insert v a q.idx; next = suc a })

  -- heap.Fix does nothing at the index -1
  unfoldable pub push_again : PriorityQueue T → ℕ → ℕ → Run (PriorityQueue T)
  push_again q a priority = do
    x ← or_panic (lookup a q.pq.cells)
    let t = record q.pq { cells = insert a (record x { priority = priority }) q.pq.cells }
    s ← elim x.index [ pos i ↦ Heap.fix heap_interface t i | negsuc _ ↦ ok t ]
    ok (record q { pq = s })

  unfoldable pub push : PriorityQueue T → T → ℕ → Run (PriorityQueue T)
  push q v priority = elim (lookup v q.idx) [
    | none ↦ push_new q v priority
    | some a ↦ push_again q a priority
  ]

  unfoldable pub pop : PriorityQueue T → Run (T × PriorityQueue T)
  pop q = do
    (a, s) ← Heap.pop heap_interface q.pq
    x ← or_panic (lookup a s.cells)
    ok (x.value, record q { pq = s; idx = remove x.value q.idx })

  -- the item at `a`, once it has left `idx`
  unfoldable pub remove_at : PriorityQueue T → ℕ → Run (Pq T)
  remove_at q a = do
    x ← or_panic (lookup a q.pq.cells)
    (_, s) ← elim x.index [ pos i ↦ Heap.remove heap_interface q.pq i | negsuc _ ↦ panic ]
    ok s

  unfoldable pub remove_value : PriorityQueue T → T → Run (Bool × PriorityQueue T)
  remove_value q v = elim (lookup v q.idx) [
    | none ↦ ok (false, q)
    | some a ↦ remove_at q a >>= λ s. ok (true, record q { pq = s; idx = remove v q.idx })
  ]
