-- ===== src/Manager/Answer.antt =====
-- The assignments of the answer to an assign request.
use Prim.Native.Nat.{Ordering, compare as compare_ℕ}
use Prim.Native.Char.{code}
use Prim.Native.String.{[] as empty, ◌∷◌ as cons, compare, then as and_then}
use Prim.Native.String.compare as compare_clauses
use libvegas.Base.{
  ℕ, Bool, true, false, List, [], ◌∷◌, String, map, if◌then◌else◌, ◌≡◌, refl, sym, ◌∙◌, ap, subst,
  inl, inr, Bool-cases, arith,
}
use mathlib.Core.List.{Perm}
use mathlib.Core.List.Perm
use libvegas.Base.Map.{Map}
use libvegas.Messages.{Assignment}
use libvegas.Manager.{ManagerService, WorkerAssignment, RangeOrder, checkpoint_of}
use libvegas.Manager.Assign.{before, insert_sorted, sort_assignments, list_assignments}

-- What a worker is told of one of its assignments.
abbrev pub told_of : ManagerService → String × WorkerAssignment → Assignment
told_of m (_, a) = record {
  id = a.id;
  shard_id = a.shard.shard_id;
  sequence_number = checkpoint_of m a.shard.shard_id;
}

either_order :
    (b : Bool) (x y l : List Assignment) → Perm x l → Perm y l → Perm (if b then x else y) l
either_order true x y l h k = h
either_order false x y l h k = k

insert_sorted-Perm : (a : Assignment) (l : List Assignment) → Perm (insert_sorted a l) (a ∷ l)
unfolding insert_sorted
insert_sorted-Perm a [] = Perm.refl (a ∷ [])
insert_sorted-Perm a (b ∷ rest) =
    either_order (before a b) _ _ (a ∷ b ∷ rest) (Perm.refl (a ∷ b ∷ rest))
      (Perm.trans (Perm.cons b (insert_sorted-Perm a rest)) (Perm.swap a b rest))

sort_assignments-Perm : (l : List Assignment) → Perm (sort_assignments l) l
unfolding sort_assignments
sort_assignments-Perm [] = Perm.refl []
sort_assignments-Perm (a ∷ rest) =
    Perm.trans (insert_sorted-Perm a (sort_assignments rest))
      (Perm.cons a (sort_assignments-Perm rest))

flip : Ordering → Ordering
flip Ordering.lt = Ordering.gt
flip Ordering.eq = Ordering.eq
flip Ordering.gt = Ordering.lt

flip-then : (o r : Ordering) → and_then (flip o) (flip r) ≡ flip (and_then o r)
unfolding flip
flip-then Ordering.lt r = refl
flip-then Ordering.eq r = refl
flip-then Ordering.gt r = refl

flip-compare_nat : (m n : ℕ) → compare_ℕ n m ≡ flip (compare_ℕ m n)
unfolding flip
flip-compare_nat m n = ground arith

flip-compare : (s t : String) → compare t s ≡ flip (compare s t)
unfolding flip
flip-compare empty empty = compare_clauses.nil-nil ∙ ap flip (sym compare_clauses.nil-nil)
flip-compare empty (cons d t) =
    compare_clauses.cons-nil d t ∙ ap flip (sym (compare_clauses.nil-cons d t))
flip-compare (cons c s) empty =
    compare_clauses.nil-cons c s ∙ ap flip (sym (compare_clauses.cons-nil c s))
flip-compare (cons c s) (cons d t) =
    compare_clauses.cons-cons d c t s
    ∙ ap (λ o. and_then o (compare t s)) (flip-compare_nat (code c) (code d))
    ∙ ap (and_then (flip (compare_ℕ (code c) (code d)))) (flip-compare s t)
    ∙ flip-then (compare_ℕ (code c) (code d)) (compare s t)
    ∙ ap flip (sym (compare_clauses.cons-cons c d s t))

not_after : Ordering → Bool
not_after o = elim o [ Ordering.gt ↦ false | _ ↦ true ]

not_after-flip : (o : Ordering) → not_after o ≡ false → not_after (flip o) ≡ true
unfolding not_after flip
not_after-flip Ordering.lt h = absurd (cc h)
not_after-flip Ordering.eq h = absurd (cc h)
not_after-flip Ordering.gt h = refl

before_other : (a b : Assignment) → before a b ≡ false → before b a ≡ true
unfolding not_after
before_other a b h =
    ap not_after (flip-compare a.shard_id b.shard_id)
    ∙ not_after-flip (compare a.shard_id b.shard_id) h

-- Each comes before the next one by the text of its shard id, or has the same.
abbrev pub AreSorted : List Assignment → Type 0
AreSorted [] = Unit {0}
AreSorted (a ∷ []) = Unit {0}
AreSorted (a ∷ b ∷ rest) = (before a b ≡ true) × AreSorted (b ∷ rest)

-- What comes after `c` still does with `a` among it.
insert_sorted-after :
    (c a : Assignment) (l : List Assignment)
    → before c a ≡ true
    → AreSorted (c ∷ l)
    → AreSorted (insert_sorted a l)
    → AreSorted (c ∷ insert_sorted a l)
unfolding insert_sorted
insert_sorted-after c a [] first h k = (first, tt)
insert_sorted-after c a (b ∷ rest) first (next, h) k = elim (Bool-cases (before a b)) [
  | inl here ↦ rw (here, insert_sorted) (first, (here, h))
  | inr later ↦
      let rest_sorted : AreSorted (b ∷ insert_sorted a rest) =
        subst (λ x. AreSorted (if x then a ∷ b ∷ rest else b ∷ insert_sorted a rest)) later k in
      rw (later, insert_sorted) (next, rest_sorted)
]

rest-AreSorted : (b : Assignment) (l : List Assignment) → AreSorted (b ∷ l) → AreSorted l
rest-AreSorted b [] h = tt
rest-AreSorted b (c ∷ rest) (first, h) = h

insert_sorted-AreSorted :
    (a : Assignment) (l : List Assignment) → AreSorted l → AreSorted (insert_sorted a l)
unfolding insert_sorted
insert_sorted-AreSorted a [] h = tt
insert_sorted-AreSorted a (b ∷ rest) h = elim (Bool-cases (before a b)) [
  | inl here ↦ rw (here, insert_sorted) (here, h)
  | inr later ↦
      rw (later, insert_sorted)
        (insert_sorted-after b a rest (before_other a b later) h
          (insert_sorted-AreSorted a rest (rest-AreSorted b rest h)))
]

sort_assignments-AreSorted : (l : List Assignment) → AreSorted (sort_assignments l)
unfolding sort_assignments
sort_assignments-AreSorted [] = tt
sort_assignments-AreSorted (a ∷ rest) =
    insert_sorted-AreSorted a (sort_assignments rest) (sort_assignments-AreSorted rest)

-- For any order in which a map is visited, the assignments of the answer are in the order of the
-- texts of their shard ids and are those of the worker: one for each, with its id, its shard and
-- the checkpoint of the shard, none left out and none twice.
pub list_assignments_lem :
    (order : RangeOrder)
    → ((m : Map String WorkerAssignment) → Perm (order.assignments m) m)
    → (m : ManagerService) (assignments : Map String WorkerAssignment)
    → AreSorted (list_assignments m (order.assignments assignments))
      × Perm (list_assignments m (order.assignments assignments)) (map (told_of m) assignments)
unfolding list_assignments
list_assignments_lem order visits m assignments = (
  sort_assignments-AreSorted (map (told_of m) (order.assignments assignments)),
  Perm.trans (sort_assignments-Perm (map (told_of m) (order.assignments assignments)))
      (Perm.map (told_of m) (visits assignments)),
)
