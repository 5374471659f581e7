-- ===== src/Manager/Session.antt =====
-- handleAssignRequest as a whole.
use libvegas.Base.{
  ℕ, ◌<◌, ◌≡◌, refl, ◌∙◌, Bool, true, false, ◌&&◌, List, [], none, some, String, min, arith, nat_eq,
  string_eq, if◌then◌else◌, length,
}
use mathlib.Core.List.{Perm}
use libvegas.Base.Run.{Run, ok, out_of_fuel, Returns, returned}
use libvegas.Base.Partial.{Unless, returns, Unless-after, Unless-then, Unless-weaken, Safely-Unless}
use libvegas.Queue
use libvegas.Queue.{PriorityQueue}
use libvegas.Manager.Release.{release_inactive_workers}
use libvegas.Manager.Closed.{process_closed_shards}
use libvegas.Manager.Acquire.{
  resolve_active_worker, acquire_due_reassignments, assign_from_unassigned_pool,
}
use libvegas.Base.Int.{ℤ, pos, eqb_ℤ, less_to_zero}
use libvegas.Base.Map.{Map, lookup}
use libvegas.Messages.{Shard, Status, AssignRequest, AssignResponse}
use libvegas.Queue.Update.{push_lem}
use libvegas.Manager.{
  ManagerService, WorkerInfo, info, RangeOrder, ShardDiscovery, ensure_in_service, priority_of_int,
}
use libvegas.Manager.Assign.{assign_shards, handle_assign_request}
use libvegas.Manager.Rebalance.{rebalance}
use libvegas.Manager.Sync.{IsSynced, cell-IsAllocated}
use libvegas.Manager.Keeps.{Settled, Pushed-IsSynced}
use libvegas.Manager.Expiry.{release_inactive_workers_lem}
use libvegas.Manager.Notes.{AreKnown, closed_weight}
use libvegas.Manager.Lineage.{IsLineage, process_closed_shards_lem}
use libvegas.Manager.Arrival.{resolve_active_worker_lem}
use libvegas.Manager.Handover.{acquire_due_reassignments-Settled}
use libvegas.Manager.Grant.{assign_from_unassigned_pool_lem}
use libvegas.Manager.Stealing.{worker_cell}
use libvegas.Manager.Sharing.{rebalance-Settled}

module _ (order : RangeOrder) (visits : (m : Map ℕ (List Shard)) → Perm (order.offers m) m)
    (discovery : ShardDiscovery) where
  -- For a worker that asked for shards the call came to rebalance, whose loop uses up its fuel.
  pub record IsSpent (fuel clock w now : ℕ) (max_shards : ℤ) (m : ManagerService) : Type 0 where
    pub due : ℕ
    pub taken_over : ManagerService
    pub given : ManagerService
    pub cell : WorkerInfo
    pub counts : PriorityQueue ℕ
    pub acquired : acquire_due_reassignments order w now m ≡ ok (due, taken_over)
    pub drawn :
        assign_from_unassigned_pool
          (min (less_to_zero max_shards due) (length taken_over.unassigned_shards))
          w
          taken_over
        ≡ ok given
    pub here : lookup w given.infos ≡ some cell
    pub pushed :
        Queue.push given.worker_shard_count w (priority_of_int cell.active_shard_count) ≡ ok counts
    pub spent :
        rebalance order fuel clock w now (record given { worker_shard_count = counts })
        ≡ out_of_fuel

  info-Returns :
      (m : ManagerService) (id : String) (w : ℕ)
      → IsSynced m
      → lookup id m.workers ≡ some w
      → Returns (λ i. lookup w m.infos ≡ some i) (info m w)
  info-Returns m id w v here = let (i, cell) = worker_cell m id w v here in rw cell (returned refl)

  share-Settled :
      (fuel clock : ℕ) (id : String) (w now : ℕ) (m : ManagerService) (b : Bool)
      → IsSynced m
      → lookup id m.workers ≡ some w
      → Unless
          (rebalance order fuel clock w now m ≡ out_of_fuel)
          (Settled m.workers m.closed)
          (if b then rebalance order fuel clock w now m else ok m)
  share-Settled fuel clock id w now m true v here =
      Safely-Unless (rebalance-Settled order fuel clock id w now m v here)
  share-Settled fuel clock id w now m false v here =
      returns (record { synced = v; workers = refl; closed = refl })

  assign_shards-Settled :
      (fuel clock : ℕ) (id : String) (w now : ℕ) (max_shards : ℤ) (m : ManagerService)
      → IsSynced m
      → lookup id m.workers ≡ some w
      → Unless
          (IsSpent fuel clock w now max_shards m)
          (λ r. (r.0.status.not_in_service ≡ false) × Settled m.workers m.closed r.1)
          (assign_shards order discovery fuel clock w now max_shards m)
  unfolding assign_shards
  assign_shards-Settled fuel clock id w now max_shards m v here =
      Unless-after (info-Returns m id w v here) λ old cell _.
        Unless-after
          (acquire_due_reassignments-Settled order visits w now m v
            (cell-IsAllocated m.infos w old cell))
          λ (n, a) s acquired.
            let here_a : lookup id a.workers ≡ some w = rw s.workers here in
            let (i, cell_a) = worker_cell a id w s.synced here_a in
            Unless-after
              (assign_from_unassigned_pool_lem
                (min (less_to_zero max_shards n) (length a.unassigned_shards)) w a i s.synced cell_a
                (omega arith))
              λ b d drawn.
                let here_b : lookup id b.workers ≡ some w = rw d.workers here_a in
                Unless-after (info-Returns b id w d.synced here_b) λ j cell_b _.
                  Unless-after
                    (push_lem b.worker_shard_count w (priority_of_int j.active_shard_count)
                      d.synced.counts)
                    λ q h pushed.
                      let v_c =
                        Pushed-IsSynced b w _ q d.synced (cell-IsAllocated b.infos w j cell_b) h in
                      Unless-then
                        (share-Settled fuel clock id w now (record b { worker_shard_count = q })
                          (eqb_ℤ old.active_shard_count j.active_shard_count
                            && elim j.reassignment_offer as (λ _. Bool) [
                              | none ↦ true
                              | some _ ↦ false
                            ])
                          v_c here_b)
                        (λ spent. record {
                          due = n;
                          taken_over = a;
                          given = b;
                          cell = j;
                          counts = q;
                          acquired = acquired;
                          drawn = drawn;
                          here = cell_b;
                          pushed = pushed;
                          spent = spent;
                        })
                        λ c t.
                          Unless-after (info-Returns c id w t.synced (rw t.workers here_b))
                            λ k cell_c _. returns (
                              refl,
                              record {
                                synced = t.synced;
                                workers = t.workers ∙ d.workers ∙ s.workers;
                                closed = t.closed ∙ d.closed ∙ s.closed;
                              },
                            )

  -- The manager is out of service and stays as it is, or it is in step again, has the worker, and
  -- its notifications are of known shards.
  pub data Served (IsKnown : String → Type 0) (request : AssignRequest) (m : ManagerService)
      : AssignResponse × ManagerService → Type 0 where
    away :
        m.in_service ≡ false
        → Served IsKnown request m
            (record { status = record { not_in_service = true }; assignments = [] }, m)
    served :
        {r : AssignResponse} {n : ManagerService}
        → r.status.not_in_service ≡ false
        → IsSynced n
        → (w : ℕ) × (lookup request.worker_id n.workers ≡ some w)
        → AreKnown IsKnown n.closed
        → Served IsKnown request m (r, n)

  -- The handler came to rebalance, whose loop uses up its fuel: the manager is in service, the
  -- steps before returned, and the worker asks for shards.
  pub record HasSpent (fuel clock now : ℕ) (request : AssignRequest) (m : ManagerService)
      : Type 0 where
    pub released : ManagerService
    pub processed : ManagerService
    pub resolved : ManagerService
    pub worker : ℕ
    pub serving : m.in_service ≡ true
    pub release : release_inactive_workers order fuel now m ≡ ok released
    pub process : process_closed_shards discovery fuel released ≡ ok processed
    pub resolve : resolve_active_worker request.worker_id now processed ≡ ok (worker, resolved)
    pub asks : eqb_ℤ request.max_shards (pos 0) ≡ false
    pub spent : IsSpent fuel clock worker now request.max_shards resolved

  module _ (IsKnown : String → Type 0) (weight : String → ℕ)
      (lineage : IsLineage discovery IsKnown weight) where
    asked-Served :
        (fuel clock now w : ℕ) (request : AssignRequest) (m n : ManagerService)
        → IsSynced n
        → lookup request.worker_id n.workers ≡ some w
        → AreKnown IsKnown n.closed
        → (none_wanted : Bool) → eqb_ℤ request.max_shards (pos 0) ≡ none_wanted
        → Unless
            ((eqb_ℤ request.max_shards (pos 0) ≡ false)
              × IsSpent fuel clock w now request.max_shards n)
            (Served IsKnown request m)
            (if none_wanted
              then ok (record { status = record { not_in_service = false }; assignments = [] }, n)
              else assign_shards order discovery fuel clock w now request.max_shards n)
    asked-Served fuel clock now w request m n v here known true e =
        returns (served refl v (w, here) known)
    asked-Served fuel clock now w request m n v here known false e =
        Unless-weaken
          (assign_shards-Settled fuel clock request.worker_id w now request.max_shards n v here)
          (λ spent. (e, spent))
          λ (r, o) (status, s). served status s.synced (w, rw s.workers here) (rw s.closed known)

    -- The guard of the handler, on what it reads of `in_service`.
    guarded-Served :
        {R : Type 0} (request : AssignRequest) (m : ManagerService)
        (serve : Run (AssignResponse × ManagerService))
        → (m.in_service ≡ true → Unless R (Served IsKnown request m) serve)
        → (b : Bool) → m.in_service ≡ b
        → Unless R (Served IsKnown request m) (
            let status : Status =
              if b then record { not_in_service = false } else record { not_in_service = true } in
            if status.not_in_service
            then ok (record { status = status; assignments = [] }, m)
            else serve)
    guarded-Served request m serve h true e = h e
    guarded-Served request m serve h false e = returns (away e)

    pub handle_assign_request_lem :
        (fuel clock now : ℕ) (request : AssignRequest) (m : ManagerService)
        → IsSynced m
        → AreKnown IsKnown m.closed
        → length m.workers < fuel
        → closed_weight weight m.closed < fuel
        → Unless
            (HasSpent fuel clock now request m)
            (Served IsKnown request m)
            (handle_assign_request order discovery fuel now clock request m)
    unfolding handle_assign_request ensure_in_service
    handle_assign_request_lem fuel clock now request m v known enough light =
        guarded-Served request m _
          (λ serving.
            Unless-after (release_inactive_workers_lem order visits fuel now m v enough)
              λ m1 x release.
                Unless-after
                  (process_closed_shards_lem discovery IsKnown weight lineage fuel m1 x.synced
                    (rw x.closed known) (rw x.closed light))
                  λ m2 (s, all_known) process.
                    Unless-after (resolve_active_worker_lem request.worker_id now m2 s.synced)
                      λ (w, m3) a resolve.
                        Unless-weaken
                          (asked-Served fuel clock now w request m m3 a.synced a.here
                            (rw a.closed all_known) (eqb_ℤ request.max_shards (pos 0)) refl)
                          (λ (asks, spent). record {
                            released = m1;
                            processed = m2;
                            resolved = m3;
                            worker = w;
                            serving = serving;
                            release = release;
                            process = process;
                            resolve = resolve;
                            asks = asks;
                            spent = spent;
                          })
                          λ r h. h)
          m.in_service refl
