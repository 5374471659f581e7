-- ===== src/Queue/Refinement.antt =====
-- PriorityQueue as a client sees it: any sequence of calls against a map from values to priorities.
use libvegas.Base.{
  ℕ, ◌≡◌, refl, sym, ap, subst, Bool, List, [], ◌∷◌, Option, none, some, if◌then◌else◌, Eq, ◌==◌,
  arith, length, inl, inr, List-cases,
}
use mathlib.Core.Path.{fun_ext}
use libvegas.Base.Run.{Run, ok, panic, ◌>>=◌, Returns, returned, Returns-value}
use libvegas.Heap
use libvegas.Queue.{PriorityQueue, swap, new, push, pop, peek, remove_value}
use libvegas.Queue.Valid.{Precedes, IsValid, priority_of}
use libvegas.Queue.Update.{push_lem}
use libvegas.Queue.Calls.{is_some, Peeked, peek_lem, pop_lem, remove_value_lem, new-IsValid}

pub data Op (T : Type 0) : Type 0 where
  push_op : T → ℕ → Op T
  remove_op : T → Op T
  peek_op pop_op : Op T

pub data Answer (T : Type 0) : Type 0 where
  pushed : Answer T
  removed : Bool → Answer T
  peeked : Option T → Answer T
  popped : T → Answer T

-- The abstract queue: which values it holds, with their priorities.
abbrev pub View : Type 0 → Type 0
View T = T → Option ℕ

module _ {T : Type 0} ⦃e : Eq T⦄ where
  unfoldable pub perform : Op T → PriorityQueue T → Run (Answer T × PriorityQueue T)
  perform (push_op v p) q = push q v p >>= λ r. ok (pushed, r)
  perform (remove_op v) q = remove_value q v >>= λ (b, r). ok (removed b, r)
  perform peek_op q = peek q >>= λ o. ok (peeked o, q)
  perform pop_op q = pop q >>= λ (v, r). ok (popped v, r)

  -- One call after another, until one panics.
  unfoldable pub perform_all :
      List (Op T) → PriorityQueue T → Run (List (Answer T) × PriorityQueue T)
  unfolding perform
  perform_all [] q = ok ([], q)
  perform_all (op ∷ ops) q =
      perform op q >>= λ (a, r). perform_all ops r >>= λ (answers, t). ok (a ∷ answers, t)

  abbrev pub update : T → Option ℕ → View T → View T
  update v o f w = if v == w then o else f w

  -- What a call on the abstract queue may answer, and what it leaves.
  pub data Spec (reversed : Bool) (f : View T) : Op T → Answer T → View T → Type 0 where
    push_spec : (v : T) (p : ℕ) → Spec reversed f (push_op v p) pushed (update v (some p) f)
    remove_spec :
        (v : T) → Spec reversed f (remove_op v) (removed (is_some (f v))) (update v none f)
    peek_none : ((w : T) → f w ≡ none) → Spec reversed f peek_op (peeked none) f
    peek_some :
        (v : T) (p : ℕ)
        → f v ≡ some p
        → ((w : T) (p' : ℕ) → f w ≡ some p' → Precedes reversed p p')
        → Spec reversed f peek_op (peeked (some v)) f
    pop_spec :
        (v : T) (p : ℕ)
        → f v ≡ some p
        → ((w : T) (p' : ℕ) → f w ≡ some p' → Precedes reversed p p')
        → Spec reversed f pop_op (popped v) (update v none f)

  -- A call that panics is a pop of the empty queue.
  abbrev pub IsRefused : View T → Op T → Type 0
  IsRefused f op = (op ≡ pop_op) × ((w : T) → f w ≡ none)

  -- The calls, one after another, on the abstract queue.
  pub data Specs (reversed : Bool)
      : View T → List (Op T) → Run (List (Answer T) × PriorityQueue T) → Type 0 where
    stop : {q : PriorityQueue T} → IsValid q → Specs reversed (priority_of q) [] (ok ([], q))
    refuse :
        {f : View T} {op : Op T} {ops : List (Op T)}
        → IsRefused f op
        → Specs reversed f (op ∷ ops) panic
    go :
        {f g : View T} {op : Op T} {a : Answer T} {ops : List (Op T)}
        {r : Run (List (Answer T) × PriorityQueue T)}
        → Spec reversed f op a g
        → Specs reversed g ops r
        → Specs reversed f (op ∷ ops) (r >>= λ (answers, t). ok (a ∷ answers, t))

  -- How one call on a valid queue ends.
  pub data Performed (q : PriorityQueue T) (op : Op T)
      : Run (Answer T × PriorityQueue T) → Type 0 where
    refused : IsRefused (priority_of q) op → Performed q op panic
    performed :
        {a : Answer T} {r : PriorityQueue T}
        → IsValid r
        → r.pq.reversed ≡ q.pq.reversed
        → Spec q.pq.reversed (priority_of q) op a (priority_of r)
        → Performed q op (ok (a, r))

  pop-empty : (q : PriorityQueue T) → q.pq.items ≡ [] → pop q ≡ panic
  unfolding pop Heap.pop swap
  pop-empty q h = rw h refl

  peek-empty : (q : PriorityQueue T) → q.pq.items ≡ [] → peek q ≡ ok none
  unfolding peek
  peek-empty q h = rw (h, peek) refl

  shown_none :
      (q : PriorityQueue T) → Returns (Peeked q) (ok none) → (w : T) → priority_of q w ≡ none
  shown_none q (returned h) = h

  nothing :
      (q : PriorityQueue T)
      → peek q ≡ ok none
      → Returns (Peeked q) (peek q)
      → (w : T) → priority_of q w ≡ none
  nothing q shows h = shown_none q (subst (Returns (Peeked q)) shows h)

  to_spec :
      (reversed : Bool) (f g h : View T) (op : Op T) (a : Answer T)
      → Spec reversed f op a g
      → ((w : T) → h w ≡ g w)
      → Spec reversed f op a h
  to_spec reversed f g h op a s same = subst (Spec reversed f op a) (sym (fun_ext same)) s

  peek-Spec :
      (q : PriorityQueue T) (o : Option T)
      → Peeked q o
      → Spec q.pq.reversed (priority_of q) peek_op (peeked o) (priority_of q)
  peek-Spec q none h = peek_none h
  peek-Spec q (some v) (p, there, first) = peek_some v p there first

  perform-Performed : (op : Op T) (q : PriorityQueue T) → IsValid q → Performed q op (perform op q)
  unfolding perform
  perform-Performed (push_op v p) q valid =
      let (r, done, h) = Returns-value (push_lem q v p valid) in
      rw done (
        performed h.valid h.flag (
          to_spec q.pq.reversed (priority_of q) (update v (some p) (priority_of q)) (priority_of r)
            (push_op v p) pushed (push_spec v p) h.holds))
  perform-Performed (remove_op v) q valid =
      let ((b, r), done, (there, h)) = Returns-value (remove_value_lem q v valid) in
      rw (done, there)
        (performed h.valid h.flag (
          to_spec q.pq.reversed (priority_of q) (update v none (priority_of q)) (priority_of r)
            (remove_op v) (removed (is_some (priority_of q v))) (remove_spec v) h.holds))
  perform-Performed peek_op q valid =
      let (o, done, h) = Returns-value (peek_lem q valid) in
      rw done (performed valid refl (peek-Spec q o h))
  perform-Performed pop_op q valid = elim (List-cases q.pq.items) [
    | inl none_left ↦
        rw (pop-empty q none_left)
          (refused (refl, nothing q (peek-empty q none_left) (peek_lem q valid)))
    | inr (a, rest, full) ↦
        let ((v, r), done, (_, (p, there, first), h)) =
          Returns-value (pop_lem q valid (omega (arith, ap length full))) in
        rw done (
          performed h.valid h.flag (
            to_spec q.pq.reversed (priority_of q) (update v none (priority_of q)) (priority_of r)
              pop_op (popped v) (pop_spec v p there first) h.holds))
  ]

  continue-Specs :
      (q : PriorityQueue T) (op : Op T) (ops : List (Op T))
      (next : (r : PriorityQueue T)
        → IsValid r
        → Specs r.pq.reversed (priority_of r) ops (perform_all ops r))
      (run : Run (Answer T × PriorityQueue T))
      → Performed q op run
      → Specs q.pq.reversed
          (priority_of q)
          (op ∷ ops)
          (run >>= λ (a, r). perform_all ops r >>= λ (answers, t). ok (a ∷ answers, t))
  continue-Specs q op ops next run (refused h) = refuse h
  continue-Specs q op ops next run (performed {a = a} {r = r} valid flag s) =
      go s (subst (λ b. Specs b (priority_of r) ops (perform_all ops r)) flag (next r valid))

  perform_all-Specs :
      (ops : List (Op T)) (q : PriorityQueue T)
      → IsValid q
      → Specs q.pq.reversed (priority_of q) ops (perform_all ops q)
  unfolding perform_all
  perform_all-Specs [] q valid = stop valid
  perform_all-Specs (op ∷ ops) q valid =
      continue-Specs q op ops (perform_all-Specs ops) (perform op q) (perform-Performed op q valid)

  -- Any sequence of calls on a new queue is one of the abstract queue, a map from values to
  -- priorities: Push sets the priority of its value, Remove takes its value out and says if it was
  -- there, Peek gives a value that no other precedes, or nothing when there is none, Pop takes
  -- such a value out, and only a Pop of the empty queue panics.
  pub perform_all_refines :
      (reversed : Bool) (ops : List (Op T))
      → Specs reversed (λ w. none) ops (perform_all ops (new reversed))
  unfolding new
  perform_all_refines reversed ops =
      let (valid, empty) = new-IsValid reversed in
      subst (λ f. Specs reversed f ops (perform_all ops (new reversed))) (fun_ext empty)
        (perform_all-Specs ops (new reversed) valid)
