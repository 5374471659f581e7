-- ===== src/Messages.antt =====
-- consumer/messages.go, and the shard of the Kinesis API as the program reads it.
use libvegas.Base.{ℕ, Bool, List, Option, String}
use libvegas.Base.Int.{ℤ}

-- types.Shard: the API always sends the id; the parents are pointers that may be nil.
pub record Shard : Type 0 where
  pub shard_id : String
  pub parent_shard_id : Option String
  pub adjacent_parent_shard_id : Option String

pub record Status : Type 0 where
  pub not_in_service : Bool

pub record Assignment : Type 0 where
  pub id : ℕ
  pub shard_id : String
  pub sequence_number : String

pub record CheckpointRequest : Type 0 where
  pub assignment_id : ℕ
  pub worker_id : String
  pub shard_id : String
  pub sequence_number : String

pub record CheckpointResponse : Type 0 where
  pub status : Status
  pub ownership_changed : Bool

pub record AssignRequest : Type 0 where
  pub worker_id : String
  pub max_shards : ℤ

pub record AssignResponse : Type 0 where
  pub status : Status
  pub assignments : List Assignment

pub record AssignmentState : Type 0 where
  pub shard_id : String
  pub assignment_id : ℕ

-- The heartbeat is the age in nanoseconds, before it is printed.
pub record WorkerState : Type 0 where
  pub worker_id : String
  pub assignments_length : ℕ
  pub number_of_assigned_shards : ℤ
  pub assignments : List AssignmentState
  pub last_heartbeat : ℕ

pub record StateResponse : Type 0 where
  pub status : Status
  pub workers : List WorkerState
