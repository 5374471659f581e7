-- ===== src/Manager.antt =====
-- consumer/manager_service.go: the state of ManagerService. Each handler runs under `mut`, so a
-- call is one step on the state. The `workerInfo` structs are shared by pointers: they are the
-- cells of `infos`, and a pointer is an address there. Times and durations are nanoseconds.
pub mod Sync
pub mod Release
pub mod Keeps
pub mod Notes
pub mod Children
pub mod Lineage
pub mod Inactive
pub mod Expiry
pub mod Grant
pub mod Takeover
pub mod Handover
pub mod Holdings
pub mod Transfer
pub mod Stealing
pub mod Fairness
pub mod Sharing
pub mod Session
pub mod Answer
pub mod Found
pub mod Arrival
pub mod Ownership
pub mod Fencing
pub mod Tokens
pub mod Keys
pub mod Numbers
pub mod Held
pub mod Holding
pub mod Gaining
pub mod Offering
pub mod Following
pub mod Keeping
pub mod Founding
pub mod System
pub mod Lifetime
pub mod Fenced
pub mod Saving
pub mod Interleaving
pub mod Stale
pub mod Outcome
pub mod Closed
pub mod Acquire
pub mod Rebalance
pub mod Assign
pub mod Checkpoint
pub mod Service
pub mod Routes
pub mod Exchange
use libvegas.Base.{
  ℕ, suc, ◌+◌, ◌-◌, ◌*◌, ◌/◌, ◌^◌, Bool, List, Option, none, some, String, if◌then◌else◌, nat_eq,
  string_eq,
}
use libvegas.Base.Run.{Run, ok, ◌>>=◌, or_panic}
use libvegas.Base.Map.{Map, lookup, lookup_or, insert}
use libvegas.Base.Int.{ℤ, pos, negsuc}
use libvegas.Messages.{Shard, Status}
use libvegas.Queue.{PriorityQueue}
pub use libvegas.Config.{PopConfig, worker_inactivity_timeout, shard_release_timeout}

-- Keyed by the address of the current owner.
pub record ReassignmentOffer : Type 0 where
  pub shards : Map ℕ (List Shard)
  pub created_at : ℕ

-- Its pointer back to the assignment is never read.
pub record ReassignmentRequest : Type 0 where
  pub created_at : ℕ

-- The struct `assignment`.
pub record WorkerAssignment : Type 0 where
  pub id : ℕ
  pub shard : Shard
  pub reassignment_request : Option ReassignmentRequest
  pub worker : ℕ

pub record WorkerInfo : Type 0 where
  pub worker_id : String
  pub last_heartbeat : ℕ
  pub assignments : Map String WorkerAssignment
  pub reassignment_offer : Option ReassignmentOffer
  pub active_shard_count : ℤ

pub record CloseNotification : Type 0 where
  pub shard_id : String
  pub worker : Option ℕ

pub record ManagerService : Type 0 where
  pub cfg : PopConfig
  pub term : ℕ
  pub closed : List CloseNotification
  pub in_service : Bool
  pub checkpoints : Map String String
  pub unassigned_shards : List Shard
  pub live_shards : Map String Shard
  pub workers : Map String ℕ
  pub worker_heartbeats : PriorityQueue String
  pub worker_shard_count : PriorityQueue ℕ
  pub next_assignment_offset : ℕ
  pub infos : Map ℕ WorkerInfo
  pub next_info : ℕ

-- The order in which a `range` visits a map, which Go leaves open.
pub record RangeOrder : Type 0 where
  pub assignments : Map String WorkerAssignment → Map String WorkerAssignment
  pub offers : Map ℕ (List Shard) → Map ℕ (List Shard)
  pub workers : Map String ℕ → Map String ℕ

-- The interface `shardDiscovery`.
pub record ShardDiscovery : Type 0 where
  pub get_all : Run (List Shard)
  pub get_roots : Run (List Shard)
  pub get_children : String → Run (List Shard)

-- What `*w` reads, and what a write of fields through `w` leaves.
abbrev pub info : ManagerService → ℕ → Run WorkerInfo
info m w = or_panic (lookup w m.infos)

unfoldable pub set_info : ManagerService → ℕ → WorkerInfo → ManagerService
set_info m w i = record m { infos = insert w i m.infos }

-- `float64(n)` for an `int`, in the order of the float64 values; exact up to 2 ^ 53.
unfoldable pub priority_of_int : ℤ → ℕ
priority_of_int (pos n) = 2 ^ 63 + n
priority_of_int (negsuc n) = 2 ^ 63 - suc n

-- Time.UnixMilli
unfoldable pub unix_milli : ℕ → ℕ
unix_milli t = t / 1000000

abbrev pub checkpoint_of : ManagerService → String → String
checkpoint_of m = λ s. lookup_or "" s m.checkpoints

unfoldable pub get_next_assignment_id : ManagerService → ℕ × ManagerService
get_next_assignment_id m =
    let offset = m.next_assignment_offset in
    (m.term + offset, record m { next_assignment_offset = offset + 1 })

unfoldable pub ensure_in_service : ManagerService → Status
ensure_in_service m =
    if m.in_service
    then record { not_in_service = Bool.false }
    else record { not_in_service = Bool.true }
