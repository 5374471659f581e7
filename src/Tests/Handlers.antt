-- ===== src/Tests/Handlers.antt =====
-- The theorems on whole handlers, on concrete managers and lineages.
use libvegas.Base.{
  ℕ, true, false, [], ◌∷◌, List, none, some, String, ◌≡◌, refl, arith, subst, string_eq, nat_eq,
  ◌==◌, if◌then◌else◌, Bool-cases, inl, inr, sym, ◌∙◌, ap, map,
}
use mathlib.Core.List.Perm
use libvegas.Base.Run.{ok, Returns, returned, returned_value}
use libvegas.Base.Int.{pos, leb_ℤ}
use libvegas.Base.Map.{lookup, insert, Map}
use libvegas.Messages.{Shard, AssignRequest}
use libvegas.Queue.{new, PriorityQueue, Item}
use libvegas.Queue.Refinement.{
  Op, push_op, remove_op, peek_op, pop_op, Specs, perform_all, perform_all_refines,
}
use libvegas.Queue
use libvegas.Heap
use libvegas.Queue.Insert.{Pushed}
use libvegas.Queue.Update.{push_lem}
use libvegas.Queue.Calls.{new-IsValid}
use libvegas.Manager.Keeps.{Pushed-IsSynced, IsBacked, offer-IsSynced, Settled, pooled-IsSynced}
use libvegas.Manager.Rebalance.{rebalance_loop, rebalance}
use libvegas.Manager.Stealing.{Looted}
use mathlib.Core.Logic.Or
use mathlib.Core.List.{mem-cons, not-mem-nil, Perm}
use libvegas.Manager.{
  WorkerInfo, ReassignmentOffer, set_info, ManagerService, ShardDiscovery, CloseNotification,
  priority_of_int, WorkerAssignment,
}
use libvegas.Manager.Sync.{IsAllocated, IsSynced}
use libvegas.Manager.Acquire.{acquire_due_reassignments}
use libvegas.Manager.Transfer.{Acquired, acquire_due_reassignments_lem}
use libvegas.Manager.Assign.{list_assignments}
use libvegas.Manager.Answer.{told_of, AreSorted, list_assignments_lem}
use libvegas.Manager.Sharing.{rebalance_lem}
use libvegas.Manager.Fairness.{IsHonest, AreHonest, rebalance_loop_lem}
use libvegas.Manager.Closed.{process_closed_shards}
use libvegas.Manager.Notes.{AreKnown}
use libvegas.Manager.Lineage.{IsLineage, process_closed_shards_lem}
use libvegas.Tests.{root, in_order}
use libvegas.Tests.Examples.{manager, worker_a, manager-IsSynced}

abbrev some_ops : List (Op String)
some_ops = push_op "a" 5 ∷ push_op "b" 3 ∷ peek_op ∷ pop_op ∷ remove_op "a" ∷ pop_op ∷ []

perform_all_refines_example : Specs false (λ w. none) some_ops (perform_all some_ops (new false))
perform_all_refines_example = perform_all_refines false some_ops

abbrev child : Shard
child = record { shard_id = "s1"; parent_shard_id = some "s0"; adjacent_parent_shard_id = none }

abbrev pub lineage : ShardDiscovery
lineage = record {
  get_all = ok (root "s0" ∷ child ∷ []);
  get_roots = ok (root "s0" ∷ []);
  get_children = λ s. if s == "s0" then ok (child ∷ []) else ok [];
}

abbrev pub AnyName : String → Type 0
AnyName s = Unit {0}

abbrev pub heavy : String → ℕ
heavy s = if s == "s0" then 2 else 1

pub lineage-IsLineage : IsLineage lineage AnyName heavy
lineage-IsLineage s k = elim (Bool-cases (s == "s0")) [
  | inl same ↦ rw same (returned (((tt, λ e. cc e), tt), omega arith))
  | inr differ ↦ rw differ (returned (tt, omega arith))
]

abbrev notes : List CloseNotification
notes = record { shard_id = "s0"; worker = some 0 } ∷ []

abbrev pub closing : ManagerService
closing = record manager { closed = notes }

pub closing-IsSynced : IsSynced closing
unfolding lookup
closing-IsSynced =
    pooled-IsSynced manager manager.checkpoints manager.unassigned_shards manager.live_shards notes
      manager-IsSynced (λ w e. ground arith, tt)

process_closed_shards_lem_example :
    Returns
      (λ n. Settled closing.workers n.closed n × AreKnown AnyName n.closed)
      (process_closed_shards lineage 3 closing)
process_closed_shards_lem_example =
    process_closed_shards_lem lineage AnyName heavy lineage-IsLineage 3 closing closing-IsSynced
      (tt, tt) (omega arith)

abbrev pub ask : AssignRequest
ask = record { worker_id = "b"; max_shards = pos 2 }

abbrev counts : PriorityQueue ℕ
counts = record {
  pq = record {
    items = 0 ∷ [];
    reversed = true;
    cells = (0, record { value = 0; priority = priority_of_int (pos 1); index = pos 0 }) ∷ [];
  };
  idx = (0, 0) ∷ [];
  next = 1;
}

counts-Pushed : Pushed manager.worker_shard_count 0 (priority_of_int (pos 1)) counts
unfolding Queue.new Queue.push Queue.push_new Queue.heap_push Queue.len Heap.push Heap.up
    Queue.set_index Queue.item_at Queue.less Queue.swap lookup insert priority_of_int
counts-Pushed =
    returned_value
      (push_lem manager.worker_shard_count 0 (priority_of_int (pos 1)) (new-IsValid true).0)

abbrev busy : ManagerService
busy = record manager { worker_shard_count = counts }

busy-IsSynced : IsSynced busy
unfolding lookup
busy-IsSynced =
    Pushed-IsSynced manager 0 (priority_of_int (pos 1)) counts manager-IsSynced (ground arith)
      counts-Pushed

only_cell : (w : ℕ) → lookup w busy.infos ≡ (if 0 == w then some worker_a else none)
unfolding lookup
only_cell w = refl

worker_a-IsHonest : IsHonest worker_a
unfolding leb_ℤ
worker_a-IsHonest = refl

busy-AreHonest : AreHonest busy
busy-AreHonest w i h = elim (Bool-cases (0 == w)) [
  | inl same ↦
      let here : some worker_a ≡ some i = sym (only_cell w ∙ rw same refl) ∙ h in
      let same_cell : worker_a ≡ i = cc here in subst IsHonest same_cell worker_a-IsHonest
  | inr differ ↦
      let gone : none ≡ some i = sym (only_cell w ∙ rw differ refl) ∙ h in absurd (cc gone)
]

rebalance_loop_lem_example :
    Returns
      (λ r. Looted in_order busy r × AreHonest r.1)
      (rebalance_loop in_order 2 9000000000 0 "b" 1 [] busy)
rebalance_loop_lem_example =
    rebalance_loop_lem in_order (λ m. Perm.refl m) 2 9000000000 0 "b" 1 [] busy busy-IsSynced
      busy-AreHonest tt (omega arith)

rebalance_lem_example :
    Returns (Settled busy.workers busy.closed) (rebalance in_order 2 9000000000 0 9000000000 busy)
unfolding lookup
rebalance_lem_example =
    rebalance_lem in_order (λ m. Perm.refl m) 2 9000000000 "a" 0 9000000000 1 busy worker_a
      busy-IsSynced busy-AreHonest refl refl refl (omega arith)

-- The worker is offered its own shard again, and the offer is due.
abbrev offer : ReassignmentOffer
offer = record { shards = (0, root "s0" ∷ []) ∷ []; created_at = 1000000000 }

offer-IsBacked : IsBacked manager.infos (some offer)
unfolding lookup
offer-IsBacked old shards m =
    Or.elim (hlevel) (mem-cons.0 m)
      (λ e. subst (IsAllocated manager.infos) (sym (ap (λ p. p.0) e)) λ k. ground arith)
      (λ k. absurd (not-mem-nil k))

abbrev offered : ManagerService
offered = set_info manager 0 (record worker_a { reassignment_offer = some offer })

offered-IsSynced : IsSynced offered
unfolding lookup
offered-IsSynced =
    offer-IsSynced manager 0 worker_a (some offer) manager-IsSynced refl offer-IsBacked

abbrev waiting_worker : WorkerInfo
waiting_worker = record worker_a { reassignment_offer = some offer }

acquire_due_reassignments_lem_example :
    Returns
      (λ r.
        Settled offered.workers offered.closed r.1
        × Acquired in_order 0 9000000000 offered waiting_worker r)
      (acquire_due_reassignments in_order 0 9000000000 offered)
unfolding set_info insert lookup
acquire_due_reassignments_lem_example =
    acquire_due_reassignments_lem in_order (λ m. Perm.refl m) 0 9000000000 offered waiting_worker
      offered-IsSynced refl

-- The assignments of a worker, out of order.
abbrev held : Map String WorkerAssignment
held =
    ("s1", record { id = 9; shard = child; reassignment_request = none; worker = 0 })
    ∷ worker_a.assignments

list_assignments_lem_example :
    AreSorted (list_assignments manager (in_order.assignments held))
    × Perm (list_assignments manager (in_order.assignments held)) (map (told_of manager) held)
list_assignments_lem_example = list_assignments_lem in_order (λ m. Perm.refl m) manager held
