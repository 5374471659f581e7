-- ===== src/Tests.antt =====
-- Concrete runs.
pub mod Examples
pub mod Handlers
pub mod Coding
pub mod Lineages
pub mod Nodes
pub mod Fencing
pub mod Life
pub mod Starting
use libvegas.Base.{
  ℕ, ◌+◌, ◌*◌, Bool, true, false, List, [], ◌∷◌, Option, none, some, String, map, ◌≡◌, refl,
  string_eq, nat_eq,
}
use libvegas.Base.Run.{Run, ok, panic, out_of_fuel, ◌>>=◌}
use libvegas.Base.Map.{Map, lookup, lookup_or}
use libvegas.Base.Int.{pos}
use libvegas.Messages.{Shard, Assignment, AssignRequest, AssignResponse}
use libvegas.Discovery.{new_shard_discovery_service, discover, get_all, get_roots, get_children}
use libvegas.Manager.{PopConfig, ManagerService, RangeOrder, ShardDiscovery}
use libvegas.Manager.Assign.{handle_assign_request}
use libvegas.Manager.Checkpoint.{handle_checkpoint_request}
use libvegas.Manager.Service.{new_manager_service, set_to_in_service}
use libvegas.Etcd.{Etcd}
use libvegas.Config.Options.{new_pop_config}

abbrev pub root : String → Shard
root s = record { shard_id = s; parent_shard_id = none; adjacent_parent_shard_id = none }

abbrev pub in_order : RangeOrder
in_order = record { assignments = λ m. m; offers = λ m. m; workers = λ m. m }

abbrev pub cfg : PopConfig
cfg = record (new_pop_config "pop" "stream" []) { shard_release_timeout_milliseconds = 2000 }

abbrev pub discovery_of : List Shard → ShardDiscovery
discovery_of shards = record {
  get_all = discover shards new_shard_discovery_service >>= get_all (λ m. m);
  get_roots = discover shards new_shard_discovery_service >>= get_roots (λ m. m);
  get_children = λ s. discover shards new_shard_discovery_service >>= get_children (λ m. m) s;
}

abbrev pub silent : Etcd ℕ
silent = record {
  get = λ _ _. some none;
  put = λ _ _ s. (true, s);
  delete = λ _ s. (true, s);
  commit = λ _ _ s. (some true, s);
}

abbrev pub started : List Shard → Run ManagerService
started shards = set_to_in_service silent (discovery_of shards) 0 1 (new_manager_service cfg)

abbrev pub second : ℕ
second = 1000000000

abbrev pub ask :
    List Shard → String → ℕ → ℕ → ManagerService → Run (AssignResponse × ManagerService)
ask shards id n at m =
    handle_assign_request in_order (discovery_of shards) 20 (at * second) (at * second)
      (record { worker_id = id; max_shards = pos n }) m

abbrev pub ids : AssignResponse → List (String × ℕ)
ids r = map (λ a. (a.shard_id, a.id)) r.assignments

abbrev pub two : List Shard
two = root "s0" ∷ root "s1" ∷ []

-- TestAssignWhenWorkersAreNotBalanced
not_balanced : Run (List (List (String × ℕ)))
not_balanced = do
  m ← started two
  (a, m) ← ask two "a" 2 100 m
  (b, m) ← ask two "b" 1 100 m
  (c, m) ← ask two "a" 4 103 m
  (d, m) ← ask two "b" 1 103 m
  (f, m) ← ask two "a" 4 103 m
  ok (ids a ∷ ids b ∷ ids c ∷ ids d ∷ ids f ∷ [])

-- TestAssignWhenWorkerBecomesInactiveBeforeItAcquiresReassignments
inactive : Run (List (List (String × ℕ)))
inactive = do
  m ← started two
  (a, m) ← ask two "a" 2 100 m
  (b, m) ← ask two "b" 1 100 m
  (c, m) ← ask two "a" 4 103 m
  (d, m) ← ask two "a" 4 105 m
  (f, m) ← ask two "b" 1 105 m
  ok (ids a ∷ ids b ∷ ids c ∷ ids d ∷ ids f ∷ [])

-- A worker that is found inactive before its closed shard was processed: the shard goes back to the
-- pool, and the next worker gets it although it is CLOSED.
closed_and_released : Run (List (List (String × String)))
closed_and_released = do
  m ← started (root "s0" ∷ [])
  (a, m) ← ask (root "s0" ∷ []) "a" 1 100 m
  (r, s, m) ←
      handle_checkpoint_request silent (λ c s. s) (λ n. ok n)
        (record { worker_id = "a"; shard_id = "s0"; assignment_id = 1; sequence_number = "CLOSED" })
        (0, m)
  (b, m) ← ask (root "s0" ∷ []) "b" 1 110 m
  ok (
      map (λ x. (x.shard_id, x.sequence_number)) a.assignments
      ∷ map (λ x. (x.shard_id, x.sequence_number)) b.assignments
      ∷ [])
