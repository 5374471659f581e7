-- ===== src/Manager/Release.antt =====
-- releaseInactiveWorkers.
use libvegas.Base.{
  ℕ, zero, suc, ◌+◌, Bool, true, false, List, [], ◌∷◌, ◌++◌, Option, none, some, String, ltb,
  if◌then◌else◌, nat_eq, string_eq, ◌==◌,
}
use libvegas.Base.Run.{Run, ok, out_of_fuel, ◌>>=◌, or_panic, for_each}
use libvegas.Base.Map.{lookup, remove}
use libvegas.Messages.{Shard}
use libvegas.Queue
use libvegas.Manager.{
  ManagerService, WorkerInfo, WorkerAssignment, ReassignmentOffer, RangeOrder, info, set_info,
  worker_inactivity_timeout,
}

-- `_, ok := set[s]`
unfoldable pub contains : String → List String → Bool
contains s [] = false
contains s (t ∷ ts) = if t == s then true else contains s ts

-- The set `releasedSet` rides along with the manager.
pub record Releasing : Type 0 where
  pub mgr : ManagerService
  pub released : List String

-- Append to the pool what was not released yet.
unfoldable pub release_shard : Shard → Releasing → Releasing
unfolding contains
release_shard s r = if contains s.shard_id r.released then r else record {
  mgr = record (r.mgr) { unassigned_shards = r.mgr.unassigned_shards ++ s ∷ [] };
  released = s.shard_id ∷ r.released;
}

-- A shard with a reassignment request is left to the worker that it is offered to.
unfoldable pub release_assignment : String × WorkerAssignment → Releasing → Run Releasing
unfolding release_shard
release_assignment (_, a) r = elim a.reassignment_request [
  | none ↦ ok (release_shard a.shard r)
  | some _ ↦ ok r
]

-- `delete(w.Assignments, s)`
unfoldable pub delete_assignment : ℕ → String → ManagerService → Run ManagerService
unfolding set_info
delete_assignment w s m = do
  i ← info m w
  ok (set_info m w (record i { assignments = remove s i.assignments }))

unfoldable pub release_offered : ℕ → Shard → Releasing → Run Releasing
unfolding release_shard delete_assignment
release_offered old s r = do
  let q = release_shard s r
  m ← delete_assignment old s.shard_id q.mgr
  ok (record q { mgr = m })

module _ (order : RangeOrder) where
  unfoldable pub release_offer : Option ReassignmentOffer → Releasing → Run Releasing
  unfolding release_offered for_each
  release_offer none r = ok r
  release_offer (some offer) r =
      for_each (λ (old, shards). for_each (release_offered old) shards) (order.offers offer.shards)
        r

  -- One round for a worker that is found inactive.
  unfoldable pub release_worker : String → ℕ → WorkerInfo → Releasing → Run Releasing
  unfolding release_assignment release_offer for_each
  release_worker id w i r = do
    r ← for_each release_assignment (order.assignments i.assignments) r
    r ← release_offer i.reassignment_offer r
    (_, heartbeats) ← Queue.pop r.mgr.worker_heartbeats
    (_, counts) ← Queue.remove_value r.mgr.worker_shard_count w
    ok (record r {
      mgr = record (r.mgr) {
        worker_heartbeats = heartbeats;
        worker_shard_count = counts;
        workers = remove id r.mgr.workers;
      };
    })

  -- `at.Sub(heartbeat) < timeout` is `at < heartbeat + timeout`.
  unfoldable pub release_loop : ℕ → ℕ → Releasing → Run ManagerService
  release_loop zero at r = out_of_fuel
  release_loop (suc k) at r = do
    first ← Queue.peek r.mgr.worker_heartbeats
    let round : String → Run ManagerService = λ id. do
      w ← or_panic (lookup id r.mgr.workers)
      i ← info r.mgr w
      let next = release_worker id w i r >>= release_loop k at
      if ltb at (i.last_heartbeat + worker_inactivity_timeout r.mgr.cfg) then ok r.mgr else next
    elim first [ none ↦ ok r.mgr | some id ↦ round id ]

  unfoldable pub release_inactive_workers : ℕ → ℕ → ManagerService → Run ManagerService
  unfolding release_loop
  release_inactive_workers fuel at m = release_loop fuel at (record { mgr = m; released = [] })
