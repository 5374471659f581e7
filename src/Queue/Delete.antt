-- ===== src/Queue/Delete.antt =====
-- What is left of a queue once an entry has left the slice.
use libvegas.Base.{
  ℕ, suc, ◌-◌, ◌<◌, ◌≡◌, ◌≢◌, refl, ◌∙◌, sym, ap, false, none, some, if◌then◌else◌, Eq, ◌==◌,
  nat_eq, arith, length, take, inl, inr, Option-cases, Bool-cases, get_elem?-get_or, get_or-take,
  length-take,
}
use libvegas.Base.Run.{ok, Returns, returned_at}
use libvegas.Base.Map.{lookup, insert, remove, lookup-remove, remove-some, ne_beq, beq_ne}
use libvegas.Base.Int.{negsuc}
use libvegas.Heap.{parent}
use libvegas.Heap.Order.{IsHeap}
use libvegas.Heap.Calls.{Isolated}
use libvegas.Queue.{Item, Pq, PriorityQueue, len, heap_pop, heap_interface}
use libvegas.Queue.Items.{
  core, at, IsIndexed, Similar, at-injective, core-insert, index_at-insert, item_lem,
}
use libvegas.Queue.Sift.{sift_laws}
use libvegas.Queue.Valid.{IsOrdered, rank, heap-Precedes, IsValid, priority_of, priority_in}

module _ {T : Type 0} ⦃e : Eq T⦄ where
  -- After `v` left the queue: valid, and every other priority as it was.
  pub record Deleted (q : PriorityQueue T) (v : T) (r : PriorityQueue T) : Type 0 where
    pub valid : IsValid r
    pub flag : r.pq.reversed ≡ q.pq.reversed
    pub holds : (w : T) → priority_of r w ≡ (if v == w then none else priority_of q w)

  -- The slice `t` holds the entry of position `i` at its end, and a heap before that.
  module _ (q : PriorityQueue T) (v : T) (p i n : ℕ) (valid : IsValid q)
      (size : length q.pq.items ≡ suc n) (h : i < suc n)
      (here : core q.pq.cells (at q.pq i) ≡ some (v, p)) (t : Pq T) (keeps : Similar q.pq t)
      (length_t : length t.items ≡ suc n) (last : at t n ≡ at q.pq i)
      (heap : IsHeap (λ c. rank q.pq (at t c)) n) (x : Item T)
      (ex : lookup (at t n) t.cells ≡ some x) where
    -- the slice without its last entry
    abbrev shrunk : Pq T
    shrunk = record t {
      items = take n t.items;
      cells = insert (at t n) (record x { index = negsuc 0 }) t.cells;
    }

    abbrev result : PriorityQueue T
    result = record q { pq = shrunk; idx = remove v q.idx }

    heap_pop_lem : heap_pop t ≡ ok (at q.pq i, shrunk)
    unfolding heap_pop
    heap_pop_lem =
        let eq : length t.items - 1 ≡ n = omega arith in
        rw (eq, get_elem?-get_or t.items n 0 (omega arith), ex, last)

    shrunk-core : (a : ℕ) → core shrunk.cells a ≡ core q.pq.cells a
    shrunk-core a =
        core-insert t.cells (at t n) x (record x { index = negsuc 0 }) a ex (refl, refl)
        ∙ keeps.frame a

    shrunk-at : (c : ℕ) → c < n → at shrunk c ≡ at t c
    shrunk-at c r = get_or-take n t.items c 0 r

    shrunk-length : length shrunk.items ≡ n
    shrunk-length = length-take n t.items (omega arith)

    apart : (c : ℕ) → c < n → at t c ≢ at t n
    apart c r same =
        absurd (omega (arith, at-injective t c n keeps.indexed (omega arith) (omega arith) same))

    shrunk-IsIndexed : IsIndexed shrunk
    shrunk-IsIndexed c r =
        let s : c < n = rw shrunk-length at r in
        rw (shrunk-at c s) (
          ground (
            arith,
            index_at-insert t.cells (at t n) (record x { index = negsuc 0 }) (at t c),
            apart c s,
            keeps.indexed c,
          ))

    shrunk-IsOrdered : IsOrdered shrunk
    shrunk-IsOrdered c a b =
        let s : c < n = rw shrunk-length at b in
        rw
          (
            shrunk-at c s,
            shrunk-at (parent c) (omega arith),
            shrunk-core (at t c),
            shrunk-core (at t (parent c)),
            ← keeps.frame (at t c),
            ← keeps.frame (at t (parent c)),
          )
          (heap-Precedes q.pq t n c keeps heap a s)

    gone : lookup v q.idx ≡ some (at q.pq i)
    gone = valid.agrees.complete i v p (omega arith) here

    -- No value but `v` is at the end.
    low :
        (w : T) (u a d : ℕ)
        → (v == w) ≡ false
        → core q.pq.cells a ≡ some (w, u)
        → at t d ≡ a
        → d < suc n
        → d < n
    low w u a d differ k at_d r =
        let inside : d ≢ n = λ end.
          beq_ne v w differ
            (cc (here, k, ap (core q.pq.cells) (sym last ∙ ap (at t) (sym end) ∙ at_d))) in
        omega arith

    shrunk_sound :
        (w : T) (a : ℕ)
        → lookup w (remove v q.idx) ≡ some a
        → (d : ℕ) × (d < length shrunk.items)
          × (at shrunk d ≡ a)
          × (u : ℕ) × (core shrunk.cells a ≡ some (w, u))
    shrunk_sound w a f =
        let (differ, f') = remove-some v w a q.idx f in
        let (c, r, at_c, u, k) = valid.agrees.sound w a f' in
        let (d, s, at_d) = keeps.onto c r in
        let inside = low w u a d differ k (at_d ∙ at_c) (rw (← length_t) s) in
        (d, rw shrunk-length inside, shrunk-at d inside ∙ at_d ∙ at_c, u, shrunk-core a ∙ k)

    shrunk_complete :
        (c : ℕ) (w : T) (u : ℕ)
        → c < length shrunk.items
        → core shrunk.cells (at shrunk c) ≡ some (w, u)
        → lookup w (remove v q.idx) ≡ some (at shrunk c)
    shrunk_complete c w u r k =
        let inside : c < n = rw shrunk-length at r in
        let (d, s, at_d) = keeps.from c (rw length_t (omega arith)) in
        let there = at_d ∙ sym (shrunk-at c inside) in
        let f =
          valid.agrees.complete d w u s
            (ap (core q.pq.cells) there ∙ sym (shrunk-core (at shrunk c)) ∙ k) in
        let differ =
          ne_beq v w
            (λ same. apart c inside (cc (gone, f, same, there, last, shrunk-at c inside))) in
        lookup-remove v w q.idx ∙ rw differ (f ∙ ap some there)

    result-view : (w : T) → priority_of result w ≡ (if v == w then none else priority_of q w)
    result-view w = elim (Bool-cases (v == w)) [
      | inl same ↦ rw (lookup-remove v w q.idx, same, priority_in) refl
      | inr differ ↦ elim (Option-cases (lookup w q.idx)) [
        | inl f ↦ rw (lookup-remove v w q.idx, differ, f, priority_in) refl
        | inr (a, f) ↦
            rw (lookup-remove v w q.idx, differ, f, priority_in) (rw (shrunk-core a) refl)
      ]
    ]

    result-Deleted : Deleted q v result
    result-Deleted = record {
      valid = record {
        indexed = shrunk-IsIndexed;
        ordered = shrunk-IsOrdered;
        agrees = record { sound = shrunk_sound; complete = shrunk_complete };
        fresh = λ a r. shrunk-core a ∙ valid.fresh a r;
      };
      flag = keeps.flag;
      holds = result-view;
    }

  module _ (q : PriorityQueue T) (v : T) (p i n : ℕ) (valid : IsValid q)
      (size : length q.pq.items ≡ suc n) (h : i < suc n)
      (here : core q.pq.cells (at q.pq i) ≡ some (v, p)) where
    -- What container/heap hands to `heap_pop` gives a queue without `v`.
    abbrev pub Dropped : ℕ × Pq T → Type 0
    Dropped r =
        (r.0 ≡ at q.pq i)
        × Deleted q v (record q { pq = r.1; idx = remove v q.idx })
        × ((a : ℕ) → core r.1.cells a ≡ core q.pq.cells a)

    pub heap_pop-Dropped :
        (t : Pq T)
        → Isolated heap_interface (sift_laws q.pq) q.pq i n t
        → Returns Dropped (heap_pop t)
    unfolding sift_laws len
    heap_pop-Dropped t iso =
        let (x, ex, _, _) = item_lem t n iso.keeps.indexed (omega (arith, iso.size)) in
        returned_at
          (heap_pop_lem q v p i n valid size h here t iso.keeps iso.size iso.last iso.heap x ex)
          (
            refl,
            result-Deleted q v p i n valid size h here t iso.keeps iso.size iso.last iso.heap x ex,
            shrunk-core q v p i n valid size h here t iso.keeps iso.size iso.last iso.heap x ex,
          )
