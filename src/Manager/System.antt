-- ===== src/Manager/System.antt =====
-- A manager through its life: it takes office and leaves it, and handlers run, in any order.
use libvegas.Base.{
  ℕ, ◌≤◌, ◌<◌, ◌≡◌, sym, subst, Bool, true, false, Option, none, some, String, length, inl, inr,
}
use libvegas.Base.Run.{ok, Safely}
use libvegas.Base.Partial.{
  Only, only, Only-then, Only-weaken, Returns-Only, Returns-Only_both, safely_value, only_value,
  Unless-Safely,
}
use libvegas.Messages.{AssignRequest, AssignResponse, CheckpointRequest, CheckpointResponse}
use libvegas.Etcd.{Etcd}
use libvegas.Manager.{ManagerService, PopConfig, RangeOrder, ShardDiscovery}
use libvegas.Manager.Notes.{closed_weight}
use libvegas.Manager.Lineage.{IsLineage}
use libvegas.Manager.Sync.{IsSynced}
use libvegas.Manager.Assign.{handle_assign_request}
use libvegas.Manager.Checkpoint.{record_checkpoint, finish_checkpoint}
use libvegas.Manager.Ownership.{Recorded, find_owned-Owned, record_checkpoint-Recorded}
use libvegas.Manager.Service.{new_manager_service, set_to_in_service, set_to_out_of_service}
use libvegas.Manager.Session.{Served, away, served, handle_assign_request_lem}
use libvegas.Manager.Takeover.{set_to_out_of_service-IsSynced}
use libvegas.Manager.Held.{IsKnown, ArePooled, IsOurs}
use libvegas.Manager.Holding.{IsLawful}
use libvegas.Manager.Founding.{record_owned-IsOurs, set_to_in_service-IsOurs}
use libvegas.Manager.Keeping.{
  new_manager_service-IsSynced, set_to_in_service-IsSynced, new_manager_service-IsOurs,
  handle_assign_request-IsOurs,
}

module _ {K : Type 0} (etcd : Etcd K) (known : String → Bool) (weight : String → ℕ) where
  -- The discovery knows the lineage: it answers for each of its shards, and the roots belong to it.
  pub record IsGood (discovery : ShardDiscovery) : Type 0 where
    pub lineage : IsLineage discovery (IsKnown known) weight
    pub roots : Only (ArePooled known) discovery.get_roots

  -- One step of a manager. The discovery, the order of maps and the store may be others each time.
  pub data Step : ManagerService → ManagerService → Type 0 where
    take_office :
        {m n : ManagerService} (discovery : ShardDiscovery) (s : K) (term : ℕ)
        → IsGood discovery
        → m.term ≤ term
        → set_to_in_service etcd discovery s term m ≡ ok n
        → Step m n
    leave_office : {m : ManagerService} → Step m (set_to_out_of_service m)
    assign :
        {m n : ManagerService} {response : AssignResponse} (order : RangeOrder)
        (discovery : ShardDiscovery) (fuel now clock : ℕ) (request : AssignRequest)
        → IsLawful order
        → IsGood discovery
        → length m.workers < fuel
        → closed_weight weight m.closed < fuel
        → handle_assign_request order discovery fuel now clock request m ≡ ok (response, n)
        → Step m n
    -- the second critical section of a checkpoint; the first one changes nothing
    checkpoint :
        {m n : ManagerService} {response : Option CheckpointResponse} {s' : K}
        (request : CheckpointRequest) (committed : Option Bool) (s : K)
        → finish_checkpoint etcd request m (committed, s) ≡ ok (response, s', n)
        → Step m n

  -- What the steps make of a new manager.
  pub data Reachable (cfg : PopConfig) : ManagerService → Type 0 where
    start : Reachable cfg (new_manager_service cfg)
    next : {m n : ManagerService} → Reachable cfg m → Step m n → Reachable cfg n

  -- In step, and within the lineage.
  pub record IsConsistent (m : ManagerService) : Type 0 where
    pub synced : IsSynced m
    pub ours : IsOurs known m

  Served-IsSynced :
      (order : RangeOrder) (lawful : IsLawful order) (discovery : ShardDiscovery)
      (request : AssignRequest) (m : ManagerService) (x : AssignResponse × ManagerService)
      → IsSynced m
      → Served order lawful.offers discovery (IsKnown known) request m x
      → IsSynced x.1
  Served-IsSynced order lawful discovery request m x v (away e) = v
  Served-IsSynced order lawful discovery request m x v (served e v' here notes) = v'

  Recorded-IsSynced :
      (request : CheckpointRequest) (m : ManagerService) (x : CheckpointResponse × ManagerService)
      → IsSynced m
      → Recorded request m x
      → IsSynced x.1
  Recorded-IsSynced request m (r, n) v (inl (_, same, _)) = subst IsSynced (sym same) v
  Recorded-IsSynced request m (r, n) v (inr (w, i, a, _, _, v', _)) = v'

  record_checkpoint-IsOurs :
      (request : CheckpointRequest) (m : ManagerService)
      → IsConsistent m
      → Only (λ x. IsOurs known x.1) (record_checkpoint request m)
  unfolding record_checkpoint
  record_checkpoint-IsOurs request m h =
      Only-then (Returns-Only (find_owned-Owned request m h.synced))
        λ owned k. only (record_owned-IsOurs known request m owned k h.ours)

  record_checkpoint-IsConsistent :
      (request : CheckpointRequest) (m : ManagerService)
      → IsConsistent m
      → Only (λ x. IsConsistent x.1) (record_checkpoint request m)
  record_checkpoint-IsConsistent request m h =
      Only-weaken
        (Returns-Only (
          Returns-Only_both (record_checkpoint-Recorded request m h.synced)
            (record_checkpoint-IsOurs request m h)))
        λ x (recorded, o). record {
          synced = Recorded-IsSynced request m x h.synced recorded;
          ours = o;
        }

  pub finish_checkpoint-IsConsistent :
      (request : CheckpointRequest) (m : ManagerService) (x : Option Bool × K)
      → IsConsistent m
      → Only (λ (r, s, n). IsConsistent n) (finish_checkpoint etcd request m x)
  unfolding finish_checkpoint
  finish_checkpoint-IsConsistent request m (none, s) h = only h
  finish_checkpoint-IsConsistent request m (some false, s) h = only h
  finish_checkpoint-IsConsistent request m (some true, s) h =
      Only-then (record_checkpoint-IsConsistent request m h) λ (r, n) h'. only h'

  Step-IsConsistent : (m n : ManagerService) → Step m n → IsConsistent m → IsConsistent n
  unfolding set_to_out_of_service
  Step-IsConsistent m n (take_office discovery s term good later done) h = record {
    synced =
        only_value (
          subst (Only IsSynced) done (set_to_in_service-IsSynced etcd discovery s term m h.synced));
    ours = only_value (
        subst (Only (IsOurs known)) done
          (set_to_in_service-IsOurs known etcd discovery s term m later good.roots h.ours));
  }
  Step-IsConsistent m n leave_office h = record {
    synced = set_to_out_of_service-IsSynced m h.synced;
    ours = record {
      cells = h.ours.cells;
      pool = h.ours.pool;
      closed = h.ours.closed;
      numbers = h.ours.numbers;
    };
  }
  Step-IsConsistent m n
        (assign {response = r} order discovery fuel now clock request lawful good enough light done)
        h =
      let x : Served order lawful.offers discovery (IsKnown known) request m (r, n) = safely_value (
        subst (Safely (Served order lawful.offers discovery (IsKnown known) request m)) done (
          Unless-Safely (
            handle_assign_request_lem order lawful.offers discovery (IsKnown known) weight
              good.lineage fuel clock now request m h.synced h.ours.closed enough light))) in
      let o : IsOurs known n = only_value (
        subst (Only (λ y. IsOurs known y.1)) done (
          handle_assign_request-IsOurs known order lawful discovery weight good.lineage fuel now
            clock request m h.ours)) in
      record {
        synced = Served-IsSynced order lawful discovery request m (r, n) h.synced x;
        ours = o;
      }
  Step-IsConsistent m n (checkpoint request committed s done) h = only_value (
      subst (Only (λ (r, s, n). IsConsistent n)) done
        (finish_checkpoint-IsConsistent request m (committed, s) h))

  -- A manager that steps have made of a new one (it takes office under a term that is not below
  -- its last one, leaves it, an assign request returns, with fuel enough for the loops that end,
  -- or a checkpoint is recorded, in any order, under discoveries that answer for the shards of one
  -- lineage and put its roots there) is in step, the shards in its pool, with its workers, in
  -- their offers and in its notifications are of that lineage, and the ids of assignments are
  -- below the next one and differ.
  pub Reachable-IsConsistent :
      (cfg : PopConfig) (m : ManagerService) → Reachable cfg m → IsConsistent m
  Reachable-IsConsistent cfg m start = record {
    synced = new_manager_service-IsSynced cfg;
    ours = new_manager_service-IsOurs known cfg;
  }
  Reachable-IsConsistent cfg n (next {m = m} before step) =
      Step-IsConsistent m n step (Reachable-IsConsistent cfg m before)
