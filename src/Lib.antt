-- ===== src/Lib.antt =====
-- Verification of Pebble, a consumer library for AWS Kinesis streams (src/, in Go).
--
-- Workers (src/consumer/worker_service.go) ask a manager for shards of a stream, process them
-- (src/consumer/shard_processor.go) and checkpoint. The manager (src/consumer/manager_service.go)
-- is one of several nodes, elected by etcd (src/consumer/leader.go). It keeps the workers in two
-- priority queues, by heartbeat and by number of shards, hands out shards under assignment ids,
-- moves shards between workers, and stores checkpoints in etcd under the assignment id as a
-- fencing token. Shards and their lineage come from src/consumer/shard_discovery_service.go.
--
-- Files:
-- - Base: Go's maps, slices and ints, texts as they are printed and split, and how a call ends (a
--   value, a panic, a fatal exit, or the end of the model's fuel); Partial is for what a call
--   leaves if it returns.
-- - Heap: Go's container/heap, which src/primitives/priority_queue.go calls, over an interface of
--   five operations; its children say what the calls do to any heap that has the laws of
--   Heap.Order.
-- - Queue: src/primitives/priority_queue.go. The items that `idx` and the heap share by pointer
--   are cells of a store. Queue.Valid has the invariant and the abstract view, the priority of a
--   value; Queue.Refinement has sequences of calls.
-- - Messages: src/consumer/messages.go. Http: replies, responses and the coding of messages,
--   which is a parameter with its documented laws.
-- - Etcd: the etcd client behind src/consumer/kvs.go, a parameter with its documented laws.
-- - Config: src/consumer/pop_config.go, with net/url as a parameter, the defaults of
--   src/consumer/pop_service.go, and what src/consumer/etcd_server.go gives to the embedded
--   server, with the life of the server (Embedded).
-- - Discovery: src/consumer/shard_discovery_service.go. Enumerate has the paging of ListShards,
--   whose answers are an argument, and Watch the loop of Start; Kept has the invariant and Update
--   what a discovery does to it.
-- - Manager: src/consumer/manager_service.go. Acquire, Assign, Checkpoint, Closed, Rebalance,
--   Release and Service have the operations, and Routes the HTTP handlers and Start with
--   src/middleware/state_critical_route.go. Sync has the invariant; the other files have proofs,
--   of the steps of handleAssignRequest (Expiry, Lineage, Arrival, Handover, Holdings, Transfer,
--   Grant, Stealing, Fairness, Sharing), of the handler (Session) and its answer (Answer), of
--   SetToInService (Takeover), of handleCheckpointRequest (Outcome), of its fencing tokens (Tokens,
--   Keys, Saving, Interleaving, Stale, Fenced), and of the exchange with workers and processors (Exchange). System
--   has the life of a manager as a relation of steps and Lifetime the handlers on it; Numbers,
--   Held, Holding, Gaining, Offering, Following, Founding and Keeping are for its invariant. A
--   handler takes the lock first and is one step on the state, but handleCheckpointRequest drops
--   the lock during its transactions: there what other handlers do to the manager is a
--   parameter, and so is what they and other nodes do to the store before each transaction.
-- - Pop: the start of src/consumer/pop_service.go, and src/pop/main.go (Command).
-- - Consumer: src/consumer/consumer_config.go, and src/consumer/consumer.go (Starting).
-- - Worker: src/consumer/worker_service.go, the rounds of the worker with the replies to its
--   requests as an argument. The goroutines of its processors are the entries of its map.
-- - Processor: src/consumer/shard_processor.go. What the stream, the manager and the stop signal
--   do is an argument, lists that end where Stop is called, and what the processor does is a log.
--   The records of the stream are a type of their own.
-- - Leader: the loop of elect, on what the etcd session and election answer. The requests of a
--   term are one function on the manager.
-- - Tests: runs of the handlers, and the theorems on concrete inputs.
--
-- Times are nanoseconds, read from a clock that is an argument. A float64 priority is a number in
-- the order of the finite floats, exact for heartbeats in milliseconds and for counts below
-- 2 ^ 53; int64 values are not bounded, but for the number of shards a worker asks for. The order in
-- which Go ranges over a map is an argument. The heap's loops carry the length of the slice as
-- fuel. The release of inactive workers takes fuel, and more than the number of workers is
-- enough. The loops of processClosedShards, rebalance and enumerateAllShards take fuel too: for
-- the first, more than the notifications weigh is enough, when each shard outweighs its children;
-- for the second, more than the number of live shards, while no worker counts more shards than it
-- has to give; the last takes a call for each page, of which an API as it is documented gives two at most. Where
-- a worker counts more than that, the
-- loop of rebalance can go round without an end.
--
-- Not modelled: the choice of a handler for a path, the clients and loggers that options set, and
-- src/middleware/with_context.go, src/aws and samples, which are calls of libraries.
pub mod Base
pub mod Heap
pub mod Queue
pub mod Messages
pub mod Http
pub mod Etcd
pub mod Config
pub mod Discovery
pub mod Manager
pub mod Worker
pub mod Processor
pub mod Leader
pub mod Pop
pub mod Consumer
pub mod Tests
