-- ===== src/Manager/Holdings.antt =====
-- acquireDueReassignments: who holds which shard, and what one offered shard does to it.
use libvegas.Base.{
  ℕ, suc, ◌+◌, ◌≡◌, refl, sym, ◌∙◌, ap, Bool, true, false, List, [], ◌∷◌, Option, none, some,
  String, nat_eq, string_eq, ◌==◌, if◌then◌else◌, inl, inr, Bool-cases, arith, length,
}
use mathlib.Core.Path.{fun_ext}
use libvegas.Base.Partial.{Only, only, Only-then, or_panic-Only}
use libvegas.Base.Map.{Map, lookup, insert, remove, has, lookup-insert, lookup-remove, beq_eq}
use libvegas.Messages.{Shard}
use libvegas.Manager.{
  ManagerService, WorkerInfo, WorkerAssignment, set_info, get_next_assignment_id,
}
use libvegas.Manager.Release.{delete_assignment}
use libvegas.Manager.Acquire.{give_shard, take_over}

-- Which worker holds which shard.
abbrev pub Holdings : Type 0
Holdings = ℕ → String → Bool

abbrev pub cell_holds : String → Option WorkerInfo → Bool
cell_holds k none = false
cell_holds k (some i) = has k i.assignments

abbrev pub holds_at : ManagerService → Holdings
holds_at m v k = cell_holds k (lookup v m.infos)

-- The shard leaves `old` and is with `w`.
abbrev pub transfer : ℕ → ℕ → String → Holdings → Holdings
transfer w old s h v k =
    if s == k then (if w == v then true else if old == v then false else h v k) else h v k

abbrev pub transfer_all : ℕ → ℕ → List Shard → Holdings → Holdings
transfer_all w old [] h = h
transfer_all w old (s ∷ rest) h = transfer_all w old rest (transfer w old s.shard_id h)

abbrev pub hand_over : ℕ → Map ℕ (List Shard) → Holdings → Holdings
hand_over w [] h = h
hand_over w ((old, shards) ∷ rest) h = hand_over w rest (transfer_all w old shards h)

-- The number of shards that are offered.
abbrev pub offered : Map ℕ (List Shard) → ℕ
offered [] = 0
offered ((old, shards) ∷ rest) = length shards + offered rest

has-insert :
    (j k : String) (a : WorkerAssignment) (m : Map String WorkerAssignment)
    → has k (insert j a m) ≡ (if j == k then true else has k m)
has-insert j k a m = ground (arith, lookup-insert j k a m)

has-remove :
    (j k : String) (m : Map String WorkerAssignment)
    → has k (remove j m) ≡ (if j == k then false else has k m)
has-remove j k m = ground (arith, lookup-remove j k m)

cell_holds-either :
    (b : Bool) (k : String) (i : WorkerInfo) (o : Option WorkerInfo)
    → cell_holds k (if b then some i else o) ≡ (if b then has k i.assignments else cell_holds k o)
cell_holds-either true k i o = refl
cell_holds-either false k i o = refl

pub holds_at-set :
    (m : ManagerService) (w : ℕ) (i : WorkerInfo) (v : ℕ) (k : String)
    → holds_at (set_info m w i) v k ≡ (if w == v then has k i.assignments else holds_at m v k)
unfolding set_info
holds_at-set m w i v k =
    ap (cell_holds k) (lookup-insert w v i m.infos)
    ∙ cell_holds-either (w == v) k i (lookup v m.infos)

pub holds_at-cell :
    (m : ManagerService) (w : ℕ) (i : WorkerInfo) (k : String)
    → lookup w m.infos ≡ some i
    → holds_at m w k ≡ has k i.assignments
holds_at-cell m w i k e = ap (cell_holds k) e

-- After the shard left `old`.
abbrev without : ℕ → String → Holdings → Holdings
without old s h v k = if old == v then (if s == k then false else h v k) else h v k

abbrev with_shard : ℕ → String → Holdings → Holdings
with_shard w s h v k = if w == v then (if s == k then true else h v k) else h v k

delete_assignment-without :
    (old : ℕ) (s : String) (m : ManagerService)
    → Only
        (λ n. (v : ℕ) (k : String) → holds_at n v k ≡ without old s (holds_at m) v k)
        (delete_assignment old s m)
unfolding delete_assignment
delete_assignment-without old s m = Only-then (or_panic-Only (lookup old m.infos)) λ i e.
    only λ v k. elim (Bool-cases (old == v)) [
      | inl same ↦
          holds_at-set m old _ v k
          ∙ rw same (
              has-remove s k i.assignments
              ∙ ap (λ b. if s == k then false else b)
                  (sym (holds_at-cell m old i k e) ∙ ap (λ u. holds_at m u k) (beq_eq old v same)))
      | inr differ ↦ holds_at-set m old _ v k ∙ rw differ refl
    ]

give_shard-with_shard :
    (w : ℕ) (s : Shard) (m : ManagerService)
    → Only
        (λ n. (v : ℕ) (k : String) → holds_at n v k ≡ with_shard w s.shard_id (holds_at m) v k)
        (give_shard w s m)
unfolding give_shard get_next_assignment_id
give_shard-with_shard w s m = Only-then (or_panic-Only (lookup w m.infos)) λ i e. only λ v k.
    elim (Bool-cases (w == v)) [
      | inl same ↦
          holds_at-set m w _ v k
          ∙ rw same (
              has-insert s.shard_id k _ i.assignments
              ∙ ap (λ b. if s.shard_id == k then true else b)
                  (sym (holds_at-cell m w i k e) ∙ ap (λ u. holds_at m u k) (beq_eq w v same)))
      | inr differ ↦ holds_at-set m w _ v k ∙ rw differ refl
    ]

both_steps :
    (a b c x : Bool)
    → (if a
        then (if c then true else if b then (if c then false else x) else x)
        else if b
        then (if c then false else x)
        else x)
      ≡ (if c then (if a then true else if b then false else x) else x)
both_steps a b c x = ground arith

pub take_over-transfer :
    (w old : ℕ) (s : Shard) (r : ℕ × ManagerService)
    → Only
        (λ q. (q.0 ≡ suc r.0) × (holds_at q.1 ≡ transfer w old s.shard_id (holds_at r.1)))
        (take_over w old s r)
unfolding take_over
take_over-transfer w old s (n, m) =
    Only-then (delete_assignment-without old s.shard_id m) λ m1 left.
      Only-then (give_shard-with_shard w s m1) λ m2 given. only (
        refl,
        fun_ext λ v. fun_ext λ k.
            given v k
            ∙ ap (λ b. if w == v then (if s.shard_id == k then true else b) else b) (left v k)
            ∙ both_steps (w == v) (old == v) (s.shard_id == k) (holds_at m v k),
      )
