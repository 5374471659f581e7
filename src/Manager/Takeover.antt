-- ===== src/Manager/Takeover.antt =====
-- SetToInService: what a new leader starts from.
use libvegas.Base.{
  ℕ, ◌≡◌, refl, ◌∙◌, sym, ap, subst, Bool, true, false, List, [], ◌∷◌, ◌++◌, Option, none, some,
  String, nat_eq, string_eq, ◌==◌, if◌then◌else◌, inl, inr, Bool-cases, map,
}
use libvegas.Base.Run.{ok, for_each, Returns, returned, Returns-then, Returns-weaken}
use libvegas.Base.Map.{Map, lookup, insert, lookup_or, lookup-insert, beq_eq}
use libvegas.Messages.{Shard}
use libvegas.Etcd.{Etcd}
use libvegas.Manager.{ManagerService, WorkerInfo, CloseNotification, ShardDiscovery, checkpoint_of}
use libvegas.Manager.Sync.{IsSynced, IsNoted, empty-IsSynced}
use libvegas.Queue
use libvegas.Queue.Calls.{new-IsValid}
use libvegas.Manager.Checkpoint.{checkpoint_key}
use libvegas.Manager.Service.{
  Roots, sort_root, sort_roots, load_checkpoint, set_to_in_service, set_to_out_of_service,
}

-- Does the shard have its checkpoint at its end?
abbrev pub is_closed : (String → String) → Shard → Bool
is_closed checkpoints s = checkpoints s.shard_id == "CLOSED"

-- The shards whose test gives `b`, in their order.
abbrev pub chosen : (Shard → Bool) → Bool → List Shard → List Shard
chosen test b [] = []
chosen test b (s ∷ rest) =
    if test s
    then (if b then s ∷ chosen test b rest else chosen test b rest)
    else (if b then chosen test b rest else s ∷ chosen test b rest)

abbrev pub notification : Shard → CloseNotification
notification s = record { shard_id = s.shard_id; worker = none }

-- The checkpoint of a shard in the store, LATEST if it has none.
abbrev pub stored_or_latest : Option String → String
stored_or_latest none = "LATEST"
stored_or_latest (some v) = v

append-nil : {A : Type 0} (xs : List A) → xs ++ [] ≡ xs
append-nil [] = refl
append-nil (x ∷ xs) = ap (λ ys. x ∷ ys) (append-nil xs)

append-cons : {A : Type 0} (xs : List A) (y : A) (zs : List A) → (xs ++ y ∷ []) ++ zs ≡ xs ++ y ∷ zs
append-cons [] y zs = refl
append-cons (x ∷ xs) y zs = ap (λ us. x ∷ us) (append-cons xs y zs)

-- The fields of `sort_root`, by the test on the checkpoint.
root_closed :
    (cps : Map String String) (s : Shard) (r : Roots)
    → (lookup_or "" s.shard_id cps == "CLOSED") ≡ true
    → sort_root cps s r ≡ record r { closed = r.closed ++ notification s ∷ [] }
unfolding sort_root
root_closed cps s r h = rw h refl

root_open :
    (cps : Map String String) (s : Shard) (r : Roots)
    → (lookup_or "" s.shard_id cps == "CLOSED") ≡ false
    → sort_root cps s r
      ≡ record r { unassigned = r.unassigned ++ s ∷ []; live = insert s.shard_id s r.live }
unfolding sort_root
root_open cps s r h = rw h refl

abbrev pub Sorted : Map String String → List Shard → Roots → Roots → Type 0
Sorted cps roots r t =
    (t.unassigned ≡ r.unassigned ++ chosen (is_closed (λ s. lookup_or "" s cps)) false roots)
    × (t.closed
        ≡ r.closed ++ map notification (chosen (is_closed (λ s. lookup_or "" s cps)) true roots))

pub sort_roots-Sorted :
    (cps : Map String String) (roots : List Shard) (r : Roots)
    → Sorted cps roots r (sort_roots cps roots r)
unfolding sort_roots
sort_roots-Sorted cps [] r = (sym (append-nil r.unassigned), sym (append-nil r.closed))
sort_roots-Sorted cps (s ∷ rest) r = elim (Bool-cases (lookup_or "" s.shard_id cps == "CLOSED")) [
  | inl ended ↦
      let t = record r { closed = r.closed ++ notification s ∷ [] } in
      let (kept, noted) = sort_roots-Sorted cps rest t in
      subst (λ x. Sorted cps (s ∷ rest) r (sort_roots cps rest x)) (sym (root_closed cps s r ended))
        (rw ended (kept, noted ∙ append-cons r.closed (notification s) _))
  | inr going ↦
      let t = record r { unassigned = r.unassigned ++ s ∷ []; live = insert s.shard_id s r.live } in
      let (kept, noted) = sort_roots-Sorted cps rest t in
      subst (λ x. Sorted cps (s ∷ rest) r (sort_roots cps rest x)) (sym (root_open cps s r going))
        (rw going (kept ∙ append-cons r.unassigned s _, noted))
]

-- The checkpoints that are read, one for each shard.
abbrev pub is_shard : String → List Shard → Bool
is_shard k [] = false
is_shard k (s ∷ rest) = if s.shard_id == k then true else is_shard k rest

if_same : {A : Type 0} {a : A} (b : Bool) → (if b then a else a) ≡ a
if_same true = refl
if_same false = refl

pub notes-IsNoted :
    (infos : Map ℕ WorkerInfo) (shards : List Shard) → IsNoted infos (map notification shards)
notes-IsNoted infos [] = tt
notes-IsNoted infos (s ∷ rest) = (λ w e. absurd (cc e), notes-IsNoted infos rest)

pub set_to_out_of_service-IsSynced :
    (m : ManagerService) → IsSynced m → IsSynced (set_to_out_of_service m)
unfolding set_to_out_of_service
set_to_out_of_service-IsSynced m v = record {
  heartbeats = v.heartbeats;
  direction = v.direction;
  counts = v.counts;
  listed = v.listed;
  known = v.known;
  offers = v.offers;
  distinct = v.distinct;
  counted = v.counted;
  noted = v.noted;
  fresh = v.fresh;
}

-- A manager that took over under `term`: no workers, the checkpoints of the store for the shards,
-- and the roots in the pool, but those at their end, which are noted as closed.
pub record TakenOver (found : String → Option String) (all roots : List Shard) (term : ℕ)
    (n : ManagerService) : Type 0 where
  pub synced : IsSynced n
  pub serving : n.in_service ≡ true
  pub term_set : n.term ≡ term
  pub idle : n.workers ≡ []
  pub checkpoints :
      (k : String)
      → lookup k n.checkpoints
        ≡ (if is_shard k all then some (stored_or_latest (found (checkpoint_key k))) else none)
  pub pool : n.unassigned_shards ≡ chosen (is_closed (checkpoint_of n)) false roots
  pub closed : n.closed ≡ map notification (chosen (is_closed (checkpoint_of n)) true roots)

module _ {K : Type 0} (etcd : Etcd K) (store : K) (found : String → Option String)
    (reads : (key : String) → etcd.get key store ≡ some (found key)) where
  loaded :
      (j k : String) (b : Bool) (cps : Map String String)
      → (if b
          then some (stored_or_latest (found (checkpoint_key k)))
          else lookup k (insert j (stored_or_latest (found (checkpoint_key j))) cps))
        ≡ (if (if j == k then true else b)
            then some (stored_or_latest (found (checkpoint_key k)))
            else lookup k cps)
  loaded j k b cps = elim (Bool-cases (j == k)) [
    | inl same ↦
        rw (lookup-insert j k (stored_or_latest (found (checkpoint_key j))) cps)
          (rw (same, beq_eq j k same) (if_same b))
    | inr differ ↦
        rw (lookup-insert j k (stored_or_latest (found (checkpoint_key j))) cps) (rw differ refl)
  ]

  load_all :
      (shards : List Shard) (cps : Map String String)
      → Returns
          (λ n.
            (k : String)
            → lookup k n ≡ (
                if is_shard k shards
                then some (stored_or_latest (found (checkpoint_key k)))
                else lookup k cps))
          (for_each (load_checkpoint etcd store) shards cps)
  unfolding for_each load_checkpoint
  load_all [] cps = returned λ k. refl
  load_all (s ∷ rest) cps = rw (reads (checkpoint_key s.shard_id)) (
      Returns-weaken
        (load_all rest
          (insert s.shard_id (stored_or_latest (found (checkpoint_key s.shard_id))) cps))
        λ n h k. h k ∙ loaded s.shard_id k (is_shard k rest) cps)

  -- On a manager in step, when every read of the store and both calls of the discovery answer,
  -- SetToInService returns a manager in step that is in service under the term and has no workers;
  -- its checkpoints are those of the store for the shards listed, LATEST where there is none; its
  -- pool is the roots that are not CLOSED and its notifications the roots that are, in the order
  -- listed.
  pub set_to_in_service_lem :
      (discovery : ShardDiscovery) (all roots : List Shard) (term : ℕ) (m : ManagerService)
      → IsSynced m
      → discovery.get_all ≡ ok all
      → discovery.get_roots ≡ ok roots
      → Returns (TakenOver found all roots term) (set_to_in_service etcd discovery store term m)
  unfolding set_to_in_service lookup Queue.new
  set_to_in_service_lem discovery all roots term m v known top = rw known (
      Returns-then (load_all all []) λ cps h. rw top (
        let (pool, noted) =
          sort_roots-Sorted cps roots (record { unassigned = []; live = []; closed = [] }) in
        returned (record {
          synced =
              empty-IsSynced _ refl (new-IsValid false).0 refl (new-IsValid false).1
                (new-IsValid true).0 (new-IsValid true).1
                (subst (IsNoted m.infos) (sym noted) (notes-IsNoted m.infos _)) v.offers v.fresh;
          serving = refl;
          term_set = refl;
          idle = refl;
          checkpoints = h;
          pool = pool;
          closed = noted;
        })))
