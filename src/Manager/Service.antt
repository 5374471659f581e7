-- ===== src/Manager/Service.antt =====
-- NewManagerService, SetToInService, SetToOutOfService, Status and handleStateRequest.
use Prim.Native.Nat.{Ordering}
use Prim.Native.String.{compare}
use libvegas.Base.{
  ℕ, ◌-◌, Bool, true, false, List, [], ◌∷◌, ◌++◌, none, some, String, map, if◌then◌else◌, nat_eq,
  string_eq, ◌==◌, length,
}
use libvegas.Base.Run.{Run, ok, ◌>>=◌, or_panic, for_each}
use libvegas.Base.Map.{Map, insert, lookup_or}
use libvegas.Messages.{Shard, WorkerState, StateResponse}
use libvegas.Queue
use libvegas.Etcd.{Etcd}
use libvegas.Manager.{
  PopConfig, ManagerService, CloseNotification, RangeOrder, ShardDiscovery, info, ensure_in_service,
}
use libvegas.Manager.Checkpoint.{checkpoint_key}

unfoldable pub new_manager_service : PopConfig → ManagerService
unfolding Queue.new
new_manager_service cfg = record {
  cfg = cfg;
  term = 0;
  closed = [];
  in_service = false;
  checkpoints = [];
  unassigned_shards = [];
  live_shards = [];
  workers = [];
  worker_heartbeats = Queue.new false;
  worker_shard_count = Queue.new true;
  next_assignment_offset = 0;
  infos = [];
  next_info = 0;
}

-- What SetToInService gathers of the root shards.
pub record Roots : Type 0 where
  pub unassigned : List Shard
  pub live : Map String Shard
  pub closed : List CloseNotification

unfoldable pub sort_root : Map String String → Shard → Roots → Roots
sort_root checkpoints root r =
    if lookup_or "" root.shard_id checkpoints == "CLOSED"
    then record r { closed = r.closed ++ record { shard_id = root.shard_id; worker = none } ∷ [] }
    else record r {
      unassigned = r.unassigned ++ root ∷ [];
      live = insert root.shard_id root r.live;
    }

unfoldable pub sort_roots : Map String String → List Shard → Roots → Roots
unfolding sort_root
sort_roots checkpoints [] r = r
sort_roots checkpoints (root ∷ rest) r = sort_roots checkpoints rest (sort_root checkpoints root r)

module _ {K : Type 0} (etcd : Etcd K) where
  -- A failed read panics; that of a cancelled context, which leaves the manager as it is, is a round
  -- of the election loop.
  unfoldable pub load_checkpoint : K → Shard → Map String String → Run (Map String String)
  load_checkpoint s shard checkpoints = do
    found ← or_panic (etcd.get (checkpoint_key shard.shard_id) s)
    ok (insert shard.shard_id (elim found [ none ↦ "LATEST" | some v ↦ v ]) checkpoints)

  unfoldable pub set_to_in_service : ShardDiscovery → K → ℕ → ManagerService → Run ManagerService
  unfolding load_checkpoint sort_roots for_each Queue.new
  set_to_in_service discovery s term m = do
    all ← discovery.get_all
    checkpoints ← for_each (load_checkpoint s) all []
    roots ← discovery.get_roots
    let r = sort_roots checkpoints roots (record { unassigned = []; live = []; closed = [] })
    ok (record m {
      workers = [];
      worker_heartbeats = Queue.new false;
      worker_shard_count = Queue.new true;
      unassigned_shards = r.unassigned;
      checkpoints = checkpoints;
      closed = r.closed;
      live_shards = r.live;
      in_service = true;
      term = term;
    })

unfoldable pub set_to_out_of_service : ManagerService → ManagerService
set_to_out_of_service m = record m { in_service = false }

-- Status
unfoldable pub status_text : ManagerService → String
status_text m = if m.in_service then "leader" else "follower"

abbrev pub by_worker_id : WorkerState → WorkerState → Bool
by_worker_id a b = elim (compare a.worker_id b.worker_id) [ Ordering.gt ↦ false | _ ↦ true ]

unfoldable pub insert_worker : WorkerState → List WorkerState → List WorkerState
insert_worker a [] = a ∷ []
insert_worker a (b ∷ rest) = if by_worker_id a b then a ∷ b ∷ rest else b ∷ insert_worker a rest

module _ (order : RangeOrder) where
  -- The rows in the order of the worker ids.
  unfoldable pub worker_states : ℕ → ManagerService → List (String × ℕ) → Run (List WorkerState)
  unfolding insert_worker
  worker_states now m [] = ok []
  worker_states now m ((id, w) ∷ rest) = do
    i ← info m w
    rows ← worker_states now m rest
    ok (
        insert_worker
          (record {
            worker_id = id;
            number_of_assigned_shards = i.active_shard_count;
            assignments_length = length i.assignments;
            assignments =
                map (λ (_, a). record { shard_id = a.shard.shard_id; assignment_id = a.id })
                  (order.assignments i.assignments);
            last_heartbeat = now - i.last_heartbeat;
          })
          rows)

  unfoldable pub handle_state_request : ℕ → ManagerService → Run StateResponse
  unfolding worker_states ensure_in_service
  handle_state_request now m =
      let status = ensure_in_service m in
      let rows : Run StateResponse = do
        workers ← worker_states now m (order.workers m.workers)
        ok (record { status = status; workers = workers })
      in if status.not_in_service then ok (record { status = status; workers = [] }) else rows
