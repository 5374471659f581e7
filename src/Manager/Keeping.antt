-- ===== src/Manager/Keeping.antt =====
-- The handlers of a manager keep it within the lineage.
use libvegas.Base.{
  ℕ, refl, sym, subst, Bool, true, false, ◌&&◌, [], none, some, String, min, nat_eq, string_eq,
  if◌then◌else◌, length,
}
use libvegas.Base.Run.{ok, for_each}
use libvegas.Base.Partial.{Only, only, or_panic-Only, any-Only, Only-then, Only-split}
use libvegas.Base.Map.{lookup}
use libvegas.Base.Int.{ℤ, pos, eqb_ℤ, less_to_zero}
use libvegas.Messages.{AssignRequest, AssignResponse}
use libvegas.Etcd.{Etcd}
use libvegas.Queue
use libvegas.Queue.Calls.{new-IsValid}
use libvegas.Manager.{ManagerService, PopConfig, RangeOrder, ShardDiscovery, priority_of_int}
use libvegas.Manager.Sync.{IsSynced, IsNoted, empty-IsSynced}
use libvegas.Manager.Lineage.{IsLineage}
use libvegas.Manager.Assign.{assign_shards, handle_assign_request}
use libvegas.Manager.Rebalance.{rebalance}
use libvegas.Manager.Service.{new_manager_service, load_checkpoint, set_to_in_service}
use libvegas.Manager.Takeover.{sort_roots-Sorted, notes-IsNoted}
use libvegas.Manager.Held.{IsKnown, IsOurs}
use libvegas.Manager.Holding.{IsLawful, same-IsOurs, release_inactive_workers-IsOurs}
use libvegas.Manager.Gaining.{
  resolve_active_worker-IsOurs, acquire_due_reassignments-IsOurs,
  assign_from_unassigned_pool-IsOurs,
}
use libvegas.Manager.Offering.{rebalance-IsOurs}
use libvegas.Manager.Following.{process_closed_shards-IsOurs}

pub new_manager_service-IsSynced : (cfg : PopConfig) → IsSynced (new_manager_service cfg)
unfolding new_manager_service lookup Queue.new
new_manager_service-IsSynced cfg =
    empty-IsSynced (new_manager_service cfg) refl (new-IsValid false).0 refl (new-IsValid false).1
      (new-IsValid true).0 (new-IsValid true).1 tt (λ w t o old shards e m. absurd (cc e))
      λ w h. refl

pub set_to_in_service-IsSynced :
    {K : Type 0} (etcd : Etcd K) (discovery : ShardDiscovery) (s : K) (term : ℕ)
    (m : ManagerService)
    → IsSynced m
    → Only IsSynced (set_to_in_service etcd discovery s term m)
unfolding set_to_in_service Queue.new
set_to_in_service-IsSynced etcd discovery s term m v =
    Only-then (any-Only discovery.get_all) λ all _.
      Only-then (any-Only (for_each (load_checkpoint etcd s) all [])) λ checkpoints _.
        Only-then (any-Only discovery.get_roots) λ roots _.
          let (pool, noted) =
            sort_roots-Sorted checkpoints roots
              (record { unassigned = []; live = []; closed = [] }) in
          only (
            empty-IsSynced _ refl (new-IsValid false).0 refl (new-IsValid false).1
              (new-IsValid true).0 (new-IsValid true).1
              (subst (IsNoted m.infos) (sym noted) (notes-IsNoted m.infos _)) v.offers v.fresh)

module _ (known : String → Bool) where
  pub new_manager_service-IsOurs : (cfg : PopConfig) → IsOurs known (new_manager_service cfg)
  unfolding new_manager_service lookup
  new_manager_service-IsOurs cfg = record {
    cells = λ w i e. absurd (cc e);
    pool = tt;
    closed = tt;
    numbers = record {
      issued = λ w s id h. absurd (cc h);
      apart = λ w u s t id h k. absurd (cc h);
    };
  }

  abbrev Kept : AssignResponse × ManagerService → Type 0
  Kept (r, m) = IsOurs known m

  module _ (order : RangeOrder) (lawful : IsLawful order) (discovery : ShardDiscovery) where
    share-IsOurs :
        (fuel clock w now : ℕ) (m : ManagerService) (b : Bool)
        → IsOurs known m
        → Only (IsOurs known) (if b then rebalance order fuel clock w now m else ok m)
    share-IsOurs fuel clock w now m b o =
        Only-split b (rebalance-IsOurs known order lawful fuel clock w now m o) (only o)

    assign_shards-IsOurs :
        (fuel clock w now : ℕ) (max_shards : ℤ) (m : ManagerService)
        → IsOurs known m
        → Only Kept (assign_shards order discovery fuel clock w now max_shards m)
    unfolding assign_shards
    assign_shards-IsOurs fuel clock w now max_shards m o =
        Only-then (or_panic-Only (lookup w m.infos)) λ old _.
          Only-then (acquire_due_reassignments-IsOurs known order lawful w now m o) λ (n, a) o1.
            Only-then
              (assign_from_unassigned_pool-IsOurs known
                (min (less_to_zero max_shards n) (length a.unassigned_shards)) w a o1)
              λ b o2. Only-then (or_panic-Only (lookup w b.infos)) λ i _.
                Only-then
                  (any-Only
                    (Queue.push b.worker_shard_count w (priority_of_int i.active_shard_count)))
                  λ q _.
                    Only-then
                      (share-IsOurs fuel clock w now (record b { worker_shard_count = q })
                        (eqb_ℤ old.active_shard_count i.active_shard_count
                          && elim i.reassignment_offer as (λ _. Bool) [
                            | none ↦ true
                            | some _ ↦ false
                          ])
                        (same-IsOurs known b _ refl refl refl refl o2))
                      λ c o3. Only-then (or_panic-Only (lookup w c.infos)) λ j _. only o3

    pub handle_assign_request-IsOurs :
        (weight : String → ℕ)
        → IsLineage discovery (IsKnown known) weight
        → (fuel now clock : ℕ) (request : AssignRequest) (m : ManagerService) → IsOurs known m
        → Only Kept (handle_assign_request order discovery fuel now clock request m)
    unfolding handle_assign_request
    handle_assign_request-IsOurs weight lineage fuel now clock request m o = Only-split _ (only o) (
        Only-then (release_inactive_workers-IsOurs known order lawful fuel now m o) λ m1 o1.
          Only-then (process_closed_shards-IsOurs known discovery weight lineage fuel m1 o1)
            λ m2 o2.
              Only-then (resolve_active_worker-IsOurs known request.worker_id now m2 o2)
                λ (w, m3) o3.
                  Only-split (eqb_ℤ request.max_shards (pos 0)) (only o3)
                    (assign_shards-IsOurs fuel clock w now request.max_shards m3 o3))
