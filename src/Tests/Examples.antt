-- ===== src/Tests/Examples.antt =====
-- The theorems on concrete queues, managers and stores.
use libvegas.Base.{
  ℕ, ◌<◌, true, false, [], ◌∷◌, Option, none, some, String, ◌≡◌, ◌≢◌, refl, arith, length,
  string_eq, nat_eq, ◌==◌, if◌then◌else◌, Bool-cases, inl, inr, sym, ◌∙◌,
}
use libvegas.Base.Run.{ok, Returns, returned, returned_value}
use libvegas.Base.Map.{lookup, insert}
use libvegas.Base.Int.{pos}
use mathlib.Core.List.Perm
use libvegas.Heap
use libvegas.Queue
use libvegas.Queue.{PriorityQueue, Pq, Item}
use libvegas.Queue.Valid.{IsValid, priority_of}
use libvegas.Queue.Insert.{Pushed}
use libvegas.Queue.Delete.{Deleted}
use libvegas.Queue.Update.{push_lem}
use libvegas.Queue.Calls.{
  Peeked, IsFirst, is_some, peek_lem, pop_lem, remove_value_lem, new-IsValid,
}
use libvegas.Manager.{
  ManagerService, WorkerInfo, priority_of_int, unix_milli, ReassignmentOffer, ShardDiscovery,
}
use libvegas.Manager.Acquire.{resolve_active_worker, assign_from_unassigned_pool}
use libvegas.Manager.Sync.{IsSynced, standing, unassigned-IsSynced}
use libvegas.Manager.Arrival.{Arrived, resolve_active_worker_lem}
use libvegas.Manager.Expiry.{Expired, release_inactive_workers_lem}
use libvegas.Manager.Release.{release_inactive_workers}
use libvegas.Manager.Outcome.{Outcome, handle_checkpoint_request_lem}
use libvegas.Manager.Checkpoint.{handle_checkpoint_request}
use libvegas.Messages.{CheckpointRequest}
use libvegas.Etcd.{Etcd, EtcdLaws, holds, written}
use libvegas.Worker.{WorkerService, Reply, answered, processor, assign_once}
use libvegas.Worker.Running.{IsWorker, Assigned, assign_once_lem}
use libvegas.Manager.Grant.{Drawn, assign_from_unassigned_pool_lem}
use libvegas.Manager.Service.{set_to_in_service}
use libvegas.Manager.Takeover.{TakenOver, set_to_in_service_lem}
use libvegas.Discovery.Enumerate.{Page, ListShardsInput, enumerate_loop, enumerate_all_shards}
use libvegas.Discovery.Paging.{first_only, enumerate_all_shards_lem}
use libvegas.Tests.{root, cfg, in_order}

abbrev no_names : PriorityQueue String
no_names = record { pq = record { items = []; cells = []; reversed = false }; idx = []; next = 0 }

no_names-IsValid : IsValid no_names
unfolding Queue.new
no_names-IsValid = (new-IsValid false).0

abbrev beats : PriorityQueue String
beats = record {
  pq = record {
    items = 0 ∷ [];
    reversed = false;
    cells = (0, record { value = "a"; priority = 9223372036854782808; index = pos 0 }) ∷ [];
  };
  idx = ("a", 0) ∷ [];
  next = 1;
}

beats-Pushed : Pushed no_names "a" 9223372036854782808 beats
unfolding Queue.push Queue.push_new Queue.heap_push Queue.len Heap.push Heap.up Queue.set_index
    Queue.item_at Queue.less Queue.swap lookup insert
beats-Pushed = returned_value (push_lem no_names "a" 9223372036854782808 no_names-IsValid)

abbrev pub names : PriorityQueue String
names = record beats {
  pq = record {
    items = 1 ∷ 0 ∷ [];
    reversed = false;
    cells =
        (0, record { value = "a"; priority = 9223372036854782808; index = pos 1 })
        ∷ (1, record { value = "b"; priority = 3; index = pos 0 })
        ∷ [];
  };
  idx = ("a", 0) ∷ ("b", 1) ∷ [];
  next = 2;
}

names-Pushed : Pushed beats "b" 3 names
unfolding Queue.push Queue.push_new Queue.heap_push Queue.len Heap.push Heap.up Queue.set_index
    Queue.item_at Queue.less Queue.swap lookup insert
names-Pushed = returned_value (push_lem beats "b" 3 beats-Pushed.valid)

push_lem_example : Returns (Pushed names "a" 1) (Queue.push names "a" 1)
push_lem_example = push_lem names "a" 1 names-Pushed.valid

pop_lem_example :
    Returns
      (λ r. (Queue.peek names ≡ ok (some r.0)) × IsFirst names r.0 × Deleted names r.0 r.1)
      (Queue.pop names)
pop_lem_example = pop_lem names names-Pushed.valid (omega arith)

remove_value_lem_example :
    Returns
      (λ r. (r.0 ≡ is_some (priority_of names "a")) × Deleted names "a" r.1)
      (Queue.remove_value names "a")
remove_value_lem_example = remove_value_lem names "a" names-Pushed.valid

peek_lem_example : Returns (Peeked names) (Queue.peek names)
peek_lem_example = peek_lem names names-Pushed.valid

-- The manager with one worker, which holds a shard.
abbrev pub worker_a : WorkerInfo
worker_a = record {
  worker_id = "a";
  last_heartbeat = 7000000000;
  assignments =
      ("s0", record { id = 7; shard = root "s0"; reassignment_request = none; worker = 0 }) ∷ [];
  reassignment_offer = none;
  active_shard_count = pos 1;
}

abbrev pub manager : ManagerService
manager = record {
  cfg = cfg;
  term = 1;
  closed = [];
  in_service = true;
  checkpoints = [];
  unassigned_shards = [];
  live_shards = ("s0", root "s0") ∷ [];
  workers = ("a", 0) ∷ [];
  worker_heartbeats = beats;
  worker_shard_count = record {
    pq = record { items = []; cells = []; reversed = true };
    idx = [];
    next = 0;
  };
  next_assignment_offset = 7;
  infos = (0, worker_a) ∷ [];
  next_info = 1;
}

the_name : (id : String) (w : ℕ) → lookup id manager.workers ≡ some w → ("a" ≡ id) × (w ≡ 0)
unfolding lookup
the_name id w h = ground (arith, string_eq.beq_iff "a" id)

the_offer : (w t : ℕ) (o : ReassignmentOffer) → standing manager.infos w ≢ some (t, some o)
unfolding lookup
the_offer w t o h = ground arith

no_beat : (id : String) (b : ℕ) → ("a" == id) ≡ false → priority_of beats id ≢ some b
unfolding lookup
no_beat id b differ h = ground arith

pub manager-IsSynced : IsSynced manager
unfolding lookup Queue.new unix_milli priority_of_int
manager-IsSynced = record {
  heartbeats = beats-Pushed.valid;
  direction = refl;
  counts = (new-IsValid true).0;
  counted = λ w p h. absurd (cc h);
  noted = tt;
  listed = λ id w h.
      let (named, here) = the_name id w h in (7000000000, none, rw here refl, rw (← named) refl);
  known = λ id b h. elim (Bool-cases ("a" == id)) [
    | inl same ↦ (0, rw same refl)
    | inr differ ↦ absurd (no_beat id b differ h)
  ];
  offers = λ w t o old shards s k. absurd (the_offer w t o s);
  distinct = λ id j w h k. sym (the_name id w h).0 ∙ (the_name j w k).0;
  fresh = λ w h. ground arith;
}

pub one_left : length manager.workers < 2
one_left = omega arith

release_inactive_workers_lem_example :
    Returns (Expired 13000000000 manager) (release_inactive_workers in_order 2 13000000000 manager)
release_inactive_workers_lem_example =
    release_inactive_workers_lem in_order (λ m. Perm.refl m) 2 13000000000 manager manager-IsSynced
      one_left

resolve_active_worker_lem_example :
    Returns
      (λ r. Arrived manager "b" 9000000000 r.0 r.1)
      (resolve_active_worker "b" 9000000000 manager)
resolve_active_worker_lem_example =
    resolve_active_worker_lem "b" 9000000000 manager manager-IsSynced

-- A store of keys and values, which never fails.
abbrev pub memory : Etcd (String → Option String)
memory = record {
  get = λ key s. some (s key);
  put = λ key v s. (true, written ((key, v) ∷ []) s);
  delete = λ key s. (true, λ j. if key == j then none else s j);
  commit = λ c puts s. if holds s c then (some true, written puts s) else (some false, s);
}

pub memory-laws : EtcdLaws memory (λ s. s)
memory-laws = record {
  tested = λ c puts s b h. ground arith;
  applied = λ c puts s h key. ground arith;
  refused = λ c puts s h key. ground arith;
  unknown = λ c puts s h. absurd (ground arith);
}

abbrev pub checkpoint : CheckpointRequest
checkpoint = record { worker_id = "a"; shard_id = "s0"; assignment_id = 7; sequence_number = "42" }

handle_checkpoint_request_lem_example :
    Returns
      (Outcome memory (λ s. s) memory-laws (λ c s. s) ok checkpoint (λ _. none) manager)
      (handle_checkpoint_request memory (λ c s. s) ok checkpoint ((λ _. none), manager))
handle_checkpoint_request_lem_example =
    handle_checkpoint_request_lem memory (λ s. s) memory-laws (λ c s. s) ok checkpoint (λ _. none)
      manager manager-IsSynced (returned manager-IsSynced)

abbrev pub worker : WorkerService
worker = record {
  manager_urls = "http://m1" ∷ "http://m2" ∷ [];
  manager_index = 1;
  max_shards = 2;
  last_heartbeat_time = 0;
  shard_processors =
      ("s0", processor "http://m2" (record { id = 7; shard_id = "s0"; sequence_number = "LATEST" }))
      ∷ [];
}

abbrev pub moved : Reply
moved = answered (record {
  status = record { not_in_service = false };
  assignments = record { id = 9; shard_id = "s1"; sequence_number = "42" } ∷ [];
})

pub worker-IsWorker : IsWorker worker
worker-IsWorker = record { managed = omega arith; keyed = (refl, tt) }

assign_once_lem_example : Returns (Assigned moved worker) (assign_once 9000000000 moved worker)
assign_once_lem_example =
    assign_once_lem 9000000000 moved worker worker-IsWorker (λ e. cc e) λ e. cc e

abbrev waiting : ManagerService
waiting = record manager { unassigned_shards = root "s1" ∷ root "s2" ∷ [] }

assign_from_unassigned_pool_lem_example :
    Returns (Drawn 1 0 waiting worker_a) (assign_from_unassigned_pool 1 0 waiting)
unfolding lookup
assign_from_unassigned_pool_lem_example =
    assign_from_unassigned_pool_lem 1 0 waiting worker_a
      (unassigned-IsSynced manager _ manager-IsSynced) refl (omega arith)

abbrev pub listing : ShardDiscovery
listing = record {
  get_all = ok (root "s0" ∷ root "s1" ∷ []);
  get_roots = ok (root "s0" ∷ root "s1" ∷ []);
  get_children = λ s. ok [];
}

abbrev kept : String → Option String
kept key = if key == "checkpoints/s0" then some "CLOSED" else none

set_to_in_service_lem_example :
    Returns
      (TakenOver kept (root "s0" ∷ root "s1" ∷ []) (root "s0" ∷ root "s1" ∷ []) 5)
      (set_to_in_service memory listing kept 5 manager)
set_to_in_service_lem_example =
    set_to_in_service_lem memory kept kept (λ key. refl) listing (root "s0" ∷ root "s1" ∷ [])
      (root "s0" ∷ root "s1" ∷ []) 5 manager manager-IsSynced refl refl

-- The first page of a stream with another one, and what the API does with the token of a request
-- that names the stream.
abbrev pub pages : ListShardsInput → Option Page
pages request = elim request.next_token [
  | none ↦ some (record { shards = root "s0" ∷ []; next_token = some "more" })
  | some token ↦ none
]

pub enumerated : enumerate_all_shards pages "orders" 3 ≡ ok none
unfolding enumerate_all_shards enumerate_loop
enumerated = refl

enumerate_all_shards_lem_example :
    enumerate_all_shards pages "orders" 3
    ≡ ok (first_only (pages (record { stream_name = "orders"; next_token = none })))
enumerate_all_shards_lem_example = enumerate_all_shards_lem pages "orders" (λ token. refl) 1
