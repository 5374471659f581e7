-- ===== src/Worker.antt =====
-- consumer/worker_service.go: how a worker follows the answers of its manager. The exchange over
-- HTTP is an argument, and the processors that run are those of the map.
pub mod Running
pub mod Bounds
pub mod Life
use libvegas.Base.{
  map, ℕ, zero, suc, ◌+◌, ◌*◌, ◌^◌, Bool, true, false, List, [], ◌∷◌, Option, none, some, String,
  ltb, leb, ◌&&◌, nat_beq, if◌then◌else◌, string_eq, ◌==◌, length, get_elem?,
}
use libvegas.Base.Run.{Run, ok, panic, fatal, ◌>>=◌, or_panic}
use libvegas.Base.Map.{Map, lookup, insert, remove}
use libvegas.Base.Int.{pos}
use libvegas.Http.{HttpReply, unsent, replied}
use libvegas.Messages.{Assignment, AssignRequest, AssignResponse}

pub record ShardProcessor : Type 0 where
  pub assignment : Assignment
  pub manager_url : String

pub record WorkerService : Type 0 where
  pub manager_urls : List String
  pub manager_index : ℕ
  pub max_shards : ℕ
  pub last_heartbeat_time : ℕ
  pub shard_processors : Map String ShardProcessor

-- What the assign request comes to: it cannot be made, for a url that does not parse; no answer or
-- one that cannot be read; a status of 4xx; or an answer.
pub data Reply : Type 0 where
  not_requested failed client_error : Reply
  answered : AssignResponse → Reply

-- The request of a round.
unfoldable pub assign_request : String → WorkerService → AssignRequest
assign_request id w = record { worker_id = id; max_shards = pos w.max_shards }

-- What the reply comes to.
unfoldable pub read_answer : (String → Option AssignResponse) → HttpReply → Reply
read_answer unmarshal unsent = failed
read_answer unmarshal (replied status body) =
    let read : Reply = elim body [
      | none ↦ failed
      | some text ↦ elim (unmarshal text) [ none ↦ failed | some r ↦ answered r ]
    ] in
    if leb 400 status && ltb status 500
    then client_error
    else if nat_beq status 200
    then read
    else failed

-- The urls are `strings.Split(cfg.PopUrls, ",")`.
unfoldable pub new_worker : List String → WorkerService
new_worker urls = record {
  manager_urls = urls;
  manager_index = 0;
  max_shards = 1;
  last_heartbeat_time = 0;
  shard_processors = [];
}

unfoldable pub current_manager : WorkerService → Run String
current_manager w = or_panic (get_elem? w.manager_urls w.manager_index)

unfoldable pub rotate_manager : WorkerService → WorkerService
rotate_manager w =
    let next = w.manager_index + 1 in
    record w {
      manager_index = if nat_beq next (length w.manager_urls) then 0 else next;
      max_shards = 1;
    }

abbrev pub processor : String → Assignment → ShardProcessor
processor url a = record { assignment = a; manager_url = url }

-- `lt[k] != nil`
unfoldable pub is_listed : String → List Assignment → Bool
is_listed k [] = false
is_listed k (a ∷ rest) = if a.shard_id == k then true else is_listed k rest

unfoldable pub to_start : String → Map String ShardProcessor → List Assignment → List ShardProcessor
to_start url running [] = []
to_start url running (a ∷ rest) =
    let others = to_start url running rest in
    elim (lookup a.shard_id running) [ none ↦ processor url a ∷ others | some _ ↦ others ]

unfoldable pub to_restart :
    String → Map String ShardProcessor → List Assignment → List ShardProcessor
to_restart url running [] = []
to_restart url running (a ∷ rest) =
    let others = to_restart url running rest in
    elim (lookup a.shard_id running) [
      | none ↦ others
      | some p ↦ if ltb p.assignment.id a.id then processor url a ∷ others else others
    ]

unfoldable pub to_stop : List Assignment → Map String ShardProcessor → List ShardProcessor
to_stop assignments [] = []
to_stop assignments ((k, p) ∷ rest) =
    let others = to_stop assignments rest in if is_listed k assignments then others else p ∷ others

-- `w.shardProcessors[p.assignment.ShardID] = p`, one after another
unfoldable pub install : List ShardProcessor → Map String ShardProcessor → Map String ShardProcessor
install [] running = running
install (p ∷ rest) running = install rest (insert p.assignment.shard_id p running)

-- `delete(w.shardProcessors, s.assignment.ShardID)`, one after another
unfoldable pub uninstall :
    List ShardProcessor → Map String ShardProcessor → Map String ShardProcessor
uninstall [] running = running
uninstall (p ∷ rest) running = uninstall rest (remove p.assignment.shard_id running)

unfoldable pub follow :
    String → List Assignment → Map String ShardProcessor → Map String ShardProcessor
unfolding to_start to_restart to_stop install uninstall
follow url assignments running = uninstall (to_stop assignments running) (
    install (to_restart url running assignments)
      (install (to_start url running assignments) running))

-- Doubling an int that is not negative: past the bounds it is negative, and reset.
unfoldable pub double_shards : ℕ → ℕ
double_shards n = if ltb (n * 2) (2 ^ 63) then n * 2 else 1

unfoldable pub accept_assignments : ℕ → List Assignment → WorkerService → Run WorkerService
unfolding current_manager follow double_shards to_start
accept_assignments now [] w = ok w
accept_assignments now (a ∷ rest) w = do
  url ← current_manager w
  ok (record w {
    last_heartbeat_time = now;
    shard_processors = follow url (a ∷ rest) w.shard_processors;
    max_shards = elim (to_start url w.shard_processors (a ∷ rest)) [
      | [] ↦ w.max_shards
      | _ ∷ _ ↦ double_shards w.max_shards
    ];
  })

-- One round of the loop of Start: after an error the worker turns to the next manager.
unfoldable pub assign_once : ℕ → Reply → WorkerService → Run WorkerService
unfolding accept_assignments rotate_manager
assign_once now not_requested w = fatal
assign_once now failed w = ok (rotate_manager w)
assign_once now client_error w = panic
assign_once now (answered response) w =
    let accepted = accept_assignments now response.assignments w in
    if response.status.not_in_service then ok (rotate_manager w) else accepted

-- The loop of Start: a round at once and at each tick, with the clock and the reply, until the context ends and
-- the processors are stopped; those are the second component.
unfoldable pub start : List (ℕ × Reply) → WorkerService → Run (WorkerService × List ShardProcessor)
unfolding assign_once
start [] w = ok (w, map (λ (_, p). p) w.shard_processors)
start ((now, reply) ∷ rest) w = assign_once now reply w >>= start rest
