-- ===== src/Manager/Acquire.antt =====
-- resolveActiveWorker, acquireDueReassignments and assignFromUnassignedPool.
use libvegas.Base.{
  ℕ, suc, ◌+◌, [], none, some, String, ltb, leb, if◌then◌else◌, nat_eq, string_eq, take, drop,
  length,
}
use libvegas.Base.Run.{Run, ok, panic, ◌>>=◌, for_each}
use libvegas.Base.Map.{lookup, insert}
use libvegas.Base.Int.{pos, inc}
use libvegas.Messages.{Shard}
use libvegas.Queue
use libvegas.Manager.{
  ManagerService, WorkerInfo, WorkerAssignment, ReassignmentOffer, RangeOrder, info, set_info,
  shard_release_timeout, priority_of_int, unix_milli, get_next_assignment_id,
}
use libvegas.Manager.Release.{delete_assignment}

-- The worker of this id, a new one if there is none.
unfoldable pub find_or_add_worker : String → ManagerService → ℕ × ManagerService
unfolding set_info
find_or_add_worker id m = elim (lookup id m.workers) [
  | some w ↦ (w, m)
  | none ↦
      let w = m.next_info in
      let fresh : WorkerInfo = record {
        worker_id = id;
        last_heartbeat = 0;
        assignments = [];
        reassignment_offer = none;
        active_shard_count = pos 0;
      } in
      (w, record (set_info m w fresh) { workers = insert id w m.workers; next_info = suc w })
]

unfoldable pub resolve_active_worker : String → ℕ → ManagerService → Run (ℕ × ManagerService)
unfolding find_or_add_worker set_info
resolve_active_worker id at m = do
  let (w, m') = find_or_add_worker id m
  i ← info m' w
  heartbeats ← Queue.push m'.worker_heartbeats id (priority_of_int (pos (unix_milli at)))
  ok (
    w,
    record (set_info m' w (record i { last_heartbeat = at })) { worker_heartbeats = heartbeats },
  )

-- `w.Assignments[id] = &assignment{...}; w.ActiveShardCount++`, under a new assignment id
unfoldable pub give_shard : ℕ → Shard → ManagerService → Run ManagerService
unfolding get_next_assignment_id set_info
give_shard w s m = do
  let (id, m') = get_next_assignment_id m
  i ← info m' w
  let a : WorkerAssignment = record { id = id; shard = s; reassignment_request = none; worker = w }
  ok (
      set_info m' w (record i {
        assignments = insert s.shard_id a i.assignments;
        active_shard_count = inc i.active_shard_count;
      }))

-- An offered shard leaves its old owner; the number of those taken over is counted.
unfoldable pub take_over : ℕ → ℕ → Shard → ℕ × ManagerService → Run (ℕ × ManagerService)
unfolding give_shard delete_assignment
take_over w old s (n, m) = do
  m ← delete_assignment old s.shard_id m
  m ← give_shard w s m
  ok (suc n, m)

module _ (order : RangeOrder) where
  unfoldable pub accept_offer : ℕ → ReassignmentOffer → ManagerService → Run (ℕ × ManagerService)
  unfolding take_over for_each set_info
  accept_offer w offer m = do
    (n, m) ←
        for_each (λ (old, shards). for_each (take_over w old) shards) (order.offers offer.shards)
          (0, m)
    i ← info m w
    ok (n, set_info m w (record i { reassignment_offer = none }))

  -- `now.Sub(created) >= timeout` is `created + timeout <= now`.
  unfoldable pub acquire_due_reassignments : ℕ → ℕ → ManagerService → Run (ℕ × ManagerService)
  unfolding accept_offer
  acquire_due_reassignments w now m = do
    i ← info m w
    elim i.reassignment_offer [
      | none ↦ ok (0, m)
      | some offer ↦
          if leb (offer.created_at + shard_release_timeout m.cfg) now
          then accept_offer w offer m
          else ok (0, m)
    ]

-- A slice `[0:count]` past the capacity panics; the callers stay within the length.
unfoldable pub assign_from_unassigned_pool : ℕ → ℕ → ManagerService → Run ManagerService
unfolding give_shard for_each
assign_from_unassigned_pool count w m = if ltb (length m.unassigned_shards) count then panic else do
  m' ← for_each (give_shard w) (take count m.unassigned_shards) m
  ok (record m' { unassigned_shards = drop count m'.unassigned_shards })
