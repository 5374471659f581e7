-- ===== src/Tests/Life.antt =====
-- The theorems on the life of a manager, from its creation to a checkpoint.
use libvegas.Base.{
  ℕ, ◌<◌, ◌≡◌, refl, arith, ◌==◌, string_eq, nat_eq, Bool, true, false, ◌∷◌, [], Option, none,
  String, Bool-cases, inl, inr,
}
use mathlib.Core.List.Perm
use libvegas.Base.Partial.{Unless, only}
use libvegas.Base.Run.{ok, for_each, Returns, returned}
use libvegas.Base.Int.{pos, eqb_ℤ, less_to_zero, inc}
use libvegas.Base.Map.{lookup, insert}
use libvegas.Messages.{AssignRequest, AssignResponse}
use libvegas.Queue
use libvegas.Heap
use libvegas.Manager.{
  WorkerInfo, WorkerAssignment, ManagerService, set_info, priority_of_int, unix_milli,
  ensure_in_service, get_next_assignment_id,
}
use libvegas.Manager.Service.{new_manager_service, set_to_in_service}
use libvegas.Manager.Assign.{handle_assign_request, assign_shards, list_assignments}
use libvegas.Manager.Release.{release_inactive_workers}
use libvegas.Manager.Closed.{process_closed_shards}
use libvegas.Manager.Rebalance.{rebalance, rebalance_loop}
use libvegas.Manager.Acquire.{
  resolve_active_worker, find_or_add_worker, acquire_due_reassignments, assign_from_unassigned_pool,
  give_shard,
}
use libvegas.Manager.Checkpoint.{handle_checkpoint_request}
use libvegas.Manager.Held.{IsKnown}
use libvegas.Manager.Holding.{IsLawful}
use libvegas.Manager.Session.{Served, HasSpent}
use libvegas.Manager.Outcome.{Outcome}
use libvegas.Manager.System.{
  IsGood, take_office, assign, Reachable, start, next, IsConsistent, Reachable-IsConsistent,
}
use libvegas.Manager.Lifetime.{
  Reachable-apart, handle_assign_request-Reachable, handle_checkpoint_request-Reachable,
}
use libvegas.Tests.{root, cfg, in_order}
use libvegas.Tests.Examples.{memory, memory-laws, checkpoint}
use libvegas.Tests.Handlers.{lineage, heavy}

abbrev pub any_name : String → Bool
any_name s = true

abbrev empty : String → Option String
empty key = none

in_order-IsLawful : IsLawful in_order
in_order-IsLawful = record { assignments = λ m. Perm.refl m; offers = λ m. Perm.refl m }

lineage-IsGood : IsGood memory any_name heavy lineage
lineage-IsGood = record {
  lineage = λ s k. elim (Bool-cases (s == "s0")) [
    | inl same ↦ rw same (returned (((refl, λ e. cc e), tt), omega arith))
    | inr differ ↦ rw differ (returned (tt, omega arith))
  ];
  roots = only (refl, tt);
}

abbrev ask : AssignRequest
ask = record { worker_id = "a"; max_shards = pos 2 }

abbrev serving : ManagerService
serving = record {
  cfg = cfg;
  term = 7;
  closed = [];
  in_service = true;
  checkpoints = ("s0", "LATEST") ∷ ("s1", "LATEST") ∷ [];
  unassigned_shards = root "s0" ∷ [];
  live_shards = ("s0", root "s0") ∷ [];
  workers = [];
  worker_heartbeats = Queue.new false;
  worker_shard_count = Queue.new true;
  next_assignment_offset = 0;
  infos = [];
  next_info = 0;
}

abbrev pub assignment : WorkerAssignment
assignment = record { id = 7; shard = root "s0"; reassignment_request = none; worker = 0 }

abbrev pub worker : WorkerInfo
worker = record {
  worker_id = "a";
  last_heartbeat = 9000000000;
  assignments = ("s0", assignment) ∷ [];
  reassignment_offer = none;
  active_shard_count = pos 1;
}

-- Worker a has the shard.
abbrev pub holding : ManagerService
holding = record serving {
  unassigned_shards = [];
  workers = ("a", 0) ∷ [];
  worker_heartbeats = record {
    pq = record {
      items = 0 ∷ [];
      reversed = false;
      cells = (0, record { value = "a"; priority = 9223372036854784808; index = pos 0 }) ∷ [];
    };
    idx = ("a", 0) ∷ [];
    next = 1;
  };
  worker_shard_count = record {
    pq = record {
      items = 0 ∷ [];
      reversed = true;
      cells = (0, record { value = 0; priority = 9223372036854775809; index = pos 0 }) ∷ [];
    };
    idx = (0, 0) ∷ [];
    next = 1;
  };
  next_assignment_offset = 1;
  infos = (0, worker) ∷ [];
  next_info = 1;
}

abbrev given : AssignResponse
given = record {
  status = record { not_in_service = false };
  assignments = record { id = 7; shard_id = "s0"; sequence_number = "LATEST" } ∷ [];
}

in_office : Reachable memory any_name heavy cfg serving
unfolding set_to_in_service lookup insert Queue.new new_manager_service
in_office = next start (take_office lineage empty 7 lineage-IsGood (omega arith) refl)

assigned_run :
    handle_assign_request in_order lineage 3 9000000000 9000000000 ask serving ≡ ok (given, holding)
unfolding handle_assign_request lookup insert Queue.new Queue.push Queue.push_new Queue.heap_push
    Queue.len Heap.push Heap.up Queue.set_index Queue.item_at Queue.less Queue.swap Queue.peek
    set_info priority_of_int unix_milli ensure_in_service release_inactive_workers
    process_closed_shards resolve_active_worker find_or_add_worker assign_shards
    acquire_due_reassignments assign_from_unassigned_pool give_shard get_next_assignment_id for_each
    rebalance rebalance_loop list_assignments eqb_ℤ less_to_zero inc
assigned_run = refl

pub shard_given : Reachable memory any_name heavy cfg holding
shard_given = next in_office (
    assign in_order lineage 3 9000000000 9000000000 ask in_order-IsLawful lineage-IsGood
      (omega arith) (omega arith) assigned_run)

Reachable-IsConsistent_example : IsConsistent memory any_name heavy holding
Reachable-IsConsistent_example =
    Reachable-IsConsistent memory any_name heavy cfg holding shard_given

handle_assign_request-Reachable_example :
    Unless
      (HasSpent in_order in_order-IsLawful.offers lineage 3 10000000000 10000000000 ask holding)
      (λ x.
        IsConsistent memory any_name heavy x.1
        × Served in_order in_order-IsLawful.offers lineage (IsKnown any_name) ask holding x)
      (handle_assign_request in_order lineage 3 10000000000 10000000000 ask holding)
handle_assign_request-Reachable_example =
    handle_assign_request-Reachable memory any_name heavy cfg holding in_order lineage 3 10000000000
      10000000000 ask shard_given in_order-IsLawful lineage-IsGood (omega arith) (omega arith)

handle_checkpoint_request-Reachable_example :
    Returns
      (λ (r, s', n).
        IsConsistent memory any_name heavy n
        × Outcome memory (λ s. s) memory-laws (λ c s. s) ok checkpoint empty holding (r, s', n))
      (handle_checkpoint_request memory (λ c s. s) ok checkpoint (empty, holding))
handle_checkpoint_request-Reachable_example =
    handle_checkpoint_request-Reachable memory any_name heavy (λ s. s) memory-laws cfg (λ c s. s) ok
      checkpoint empty holding shard_given (returned shard_given)

Reachable-apart_example : ◌≡◌ {A = ℕ} 0 0 × ◌≡◌ {A = String} "s0" "s0" × (7 < 8)
unfolding lookup
Reachable-apart_example =
    Reachable-apart memory any_name heavy cfg holding 0 0 worker worker "s0" "s0" assignment
      assignment shard_given refl refl refl refl refl
