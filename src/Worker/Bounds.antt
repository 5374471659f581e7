-- ===== src/Worker/Bounds.antt =====
-- The number of shards that a worker asks for.
use libvegas.Base.{ℕ, ◌*◌, ◌^◌, ◌≤◌, ◌<◌, ◌≢◌, refl, List, [], ◌∷◌, get_or, get_elem?-get_or, arith}
use libvegas.Base.Run.{Returns, returned, Returns-split}
use libvegas.Messages.{Assignment}
use libvegas.Worker.{
  ShardProcessor, Reply, not_requested, failed, client_error, answered, WorkerService,
  rotate_manager, accept_assignments, double_shards, current_manager, assign_once, to_start,
}
use libvegas.Worker.Running.{IsWorker}

-- A positive int.
abbrev pub IsBounded : WorkerService → Type 0
IsBounded w = (0 < w.max_shards) × (w.max_shards < 2 ^ 63)

-- Up by a factor of two at most, or back at one.
abbrev pub HasGrown : WorkerService → WorkerService → Type 0
HasGrown w w' = IsBounded w' × (w'.max_shards ≤ w.max_shards * 2)

double_shards_lem :
    (n : ℕ)
    → 0 < n
    → n < 2 ^ 63
    → ((0 < double_shards n) × (double_shards n < 2 ^ 63)) × (double_shards n ≤ n * 2)
unfolding double_shards
double_shards_lem n low high = ground arith

started-HasGrown :
    (started : List ShardProcessor) (n : ℕ)
    → 0 < n
    → n < 2 ^ 63
    → ((0 < elim started as (λ _. ℕ) [ [] ↦ n | _ ∷ _ ↦ double_shards n ])
        × (elim started as (λ _. ℕ) [ [] ↦ n | _ ∷ _ ↦ double_shards n ] < 2 ^ 63))
      × (elim started as (λ _. ℕ) [ [] ↦ n | _ ∷ _ ↦ double_shards n ] ≤ n * 2)
started-HasGrown [] n low high = ((low, high), omega arith)
started-HasGrown (p ∷ rest) n low high = double_shards_lem n low high

accept_assignments-HasGrown :
    (now : ℕ) (xs : List Assignment) (w : WorkerService)
    → IsWorker w
    → IsBounded w
    → Returns (HasGrown w) (accept_assignments now xs w)
unfolding accept_assignments current_manager
accept_assignments-HasGrown now [] w v (low, high) = returned ((low, high), omega arith)
accept_assignments-HasGrown now (a ∷ rest) w v (low, high) =
    let url = get_or w.manager_urls w.manager_index "" in
    rw (get_elem?-get_or w.manager_urls w.manager_index "" v.managed) (
      returned
        (started-HasGrown (to_start url w.shard_processors (a ∷ rest)) w.max_shards low high))

rotate_manager-HasGrown : (w : WorkerService) → IsBounded w → HasGrown w (rotate_manager w)
unfolding rotate_manager
rotate_manager-HasGrown w (low, high) = ((omega arith, omega arith), omega arith)

-- For a worker whose current manager is one of its urls, when a request can be made and the reply
-- is no status of 4xx, a number of shards asked for that is a positive int64 is one after the
-- round, and at most doubled.
pub assign_once-HasGrown :
    (now : ℕ) (reply : Reply) (w : WorkerService)
    → IsWorker w
    → IsBounded w
    → reply ≢ not_requested
    → reply ≢ client_error
    → Returns (HasGrown w) (assign_once now reply w)
unfolding assign_once
assign_once-HasGrown now not_requested w v b made h = absurd (made refl)
assign_once-HasGrown now failed w v b made h = returned (rotate_manager-HasGrown w b)
assign_once-HasGrown now client_error w v b made h = absurd (h refl)
assign_once-HasGrown now (answered response) w v b made h =
    Returns-split response.status.not_in_service (λ away. returned (rotate_manager-HasGrown w b))
      (λ serving. accept_assignments-HasGrown now response.assignments w v b)
