-- ===== src/Manager/Assign.antt =====
-- handleAssignRequest.
use Prim.Native.Nat.{Ordering}
use Prim.Native.String.{compare}
use libvegas.Base.{
  ℕ, Bool, true, false, List, [], ◌∷◌, none, some, String, min, map, if◌then◌else◌, nat_eq,
  string_eq, length, ◌&&◌,
}
use libvegas.Base.Run.{Run, ok, ◌>>=◌}
use libvegas.Base.Map.{Map}
use libvegas.Base.Int.{ℤ, pos, eqb_ℤ, less_to_zero}
use libvegas.Messages.{Status, Assignment, AssignRequest, AssignResponse}
use libvegas.Queue
use libvegas.Manager.{
  ManagerService, WorkerAssignment, RangeOrder, ShardDiscovery, info, priority_of_int,
  checkpoint_of, ensure_in_service,
}
use libvegas.Manager.Release.{release_inactive_workers}
use libvegas.Manager.Closed.{process_closed_shards}
use libvegas.Manager.Acquire.{
  resolve_active_worker, acquire_due_reassignments, assign_from_unassigned_pool,
}
use libvegas.Manager.Rebalance.{rebalance}

-- `strings.Compare(a.ShardID, b.ShardID) <= 0`
abbrev pub before : Assignment → Assignment → Bool
before a b = elim (compare a.shard_id b.shard_id) [ Ordering.gt ↦ false | _ ↦ true ]

unfoldable pub insert_sorted : Assignment → List Assignment → List Assignment
insert_sorted a [] = a ∷ []
insert_sorted a (b ∷ rest) = if before a b then a ∷ b ∷ rest else b ∷ insert_sorted a rest

-- slices.SortFunc by shard id
unfoldable pub sort_assignments : List Assignment → List Assignment
unfolding insert_sorted
sort_assignments [] = []
sort_assignments (a ∷ rest) = insert_sorted a (sort_assignments rest)

abbrev pub in_service_status : Status
in_service_status = record { not_in_service = false }

-- The assignments of the answer, one for each assignment of the worker, with its checkpoint.
unfoldable pub list_assignments : ManagerService → Map String WorkerAssignment → List Assignment
unfolding sort_assignments
list_assignments m assignments = sort_assignments (
    map
      (λ (_, a). record {
        id = a.id;
        shard_id = a.shard.shard_id;
        sequence_number = checkpoint_of m a.shard.shard_id;
      })
      assignments)

module _ (order : RangeOrder) (discovery : ShardDiscovery) where
  -- From the reassignments that are due to the answer, for a worker that asks for shards.
  unfoldable pub assign_shards :
      ℕ → ℕ → ℕ → ℕ → ℤ → ManagerService → Run (AssignResponse × ManagerService)
  unfolding list_assignments
  assign_shards fuel clock w now max_shards m = do
    old ← info m w
    (n, m) ← acquire_due_reassignments order w now m
    let count = min (less_to_zero max_shards n) (length m.unassigned_shards)
    m ← assign_from_unassigned_pool count w m
    i ← info m w
    counts ← Queue.push m.worker_shard_count w (priority_of_int i.active_shard_count)
    let m' = record m { worker_shard_count = counts }
    let idle : Bool = elim i.reassignment_offer [ none ↦ true | some _ ↦ false ]
    m'' ←
        if eqb_ℤ old.active_shard_count i.active_shard_count && idle
        then rebalance order fuel clock w now m'
        else ok m'
    i' ← info m'' w
    ok (
      record {
        status = in_service_status;
        assignments = list_assignments m'' (order.assignments i'.assignments);
      },
      m'',
    )

  -- `now` is read before the lock is taken, and `clock` in `rebalance`.
  unfoldable pub handle_assign_request :
      ℕ → ℕ → ℕ → AssignRequest → ManagerService → Run (AssignResponse × ManagerService)
  unfolding ensure_in_service
  handle_assign_request fuel now clock request m =
      let serve : Run (AssignResponse × ManagerService) = do
        m ← release_inactive_workers order fuel now m
        m ← process_closed_shards discovery fuel m
        (w, m) ← resolve_active_worker request.worker_id now m
        if eqb_ℤ request.max_shards (pos 0)
            then ok (record { status = in_service_status; assignments = [] }, m)
            else assign_shards fuel clock w now request.max_shards m
      in let status = ensure_in_service m in
        if status.not_in_service
        then ok (record { status = status; assignments = [] }, m)
        else serve
