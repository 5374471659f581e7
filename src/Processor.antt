-- ===== src/Processor.antt =====
-- consumer/shard_processor.go: the subscription to a shard and its checkpoints. What the stream, the
-- manager and the stop signal do is an argument: the lists below end where Stop is called.
pub mod Protocol
pub mod Serving
pub mod Life
pub mod Retry
use libvegas.Base.{
  ℕ, ◌+◌, Bool, true, false, not, ◌&&◌, ◌||◌, List, [], ◌∷◌, ◌++◌, Option, none, some, String, map,
  ltb, leb, nat_beq, if◌then◌else◌, string_eq, ◌==◌,
}
use libvegas.Base.Run.{Run, ok, panic, fatal, ◌>>=◌}
use libvegas.Http.{HttpReply, unsent, replied}
use libvegas.Messages.{CheckpointRequest, CheckpointResponse}
use libvegas.Consumer.{ConsumerConfig, checkpoint_interval}
use libvegas.Worker.{ShardProcessor}

-- types.StartingPosition
pub data StartingPosition : Type 0 where
  latest : StartingPosition
  after_sequence_number : String → StartingPosition

-- types.SubscribeToShardEvent, with the records of the stream as a type of their own.
pub record SubscribeToShardEvent (R : Type 0) : Type 0 where
  pub records : List R
  pub continuation_sequence_number : Option String

-- What arrives on the event stream. An event comes with the clock after its records, and with the
-- replies to its checkpoint, if one is sent: the first, and one for each time the retry timer fires
-- before Stop is called.
pub data Arrival (R : Type 0) : Type 0 where
  stream_closed nil_event nil_member other_member : Arrival R
  received : SubscribeToShardEvent R → ℕ → HttpReply → List HttpReply → Arrival R

-- SubscribeToShard: an error, or a stream with the clock when it is read first.
pub data Subscription (R : Type 0) : Type 0 where
  failed : Subscription R
  opened : ℕ → List (Arrival R) → Subscription R

-- What a processor does to its surroundings.
pub data Effect (R : Type 0) : Type 0 where
  subscribed : StartingPosition → Effect R
  processed : R → Effect R
  posted : CheckpointRequest → Effect R

-- The variables of handleSubscription; `streaming` is `eventStream != nil`.
pub record Reading (R : Type 0) : Type 0 where
  pub sn : String
  pub last_checkpoint_time : ℕ
  pub streaming : Bool
  pub log : List (Effect R)

unfoldable pub checkpoint_request :
    ConsumerConfig → ShardProcessor → String → Bool → CheckpointRequest
checkpoint_request cfg p sn closed = record {
  assignment_id = p.assignment.id;
  worker_id = cfg.id;
  shard_id = p.assignment.shard_id;
  sequence_number = if closed then "CLOSED" else sn;
}

-- What the reply comes to: `none` is an error.
unfoldable pub read_reply :
    (String → Option CheckpointResponse) → HttpReply → Run (Option CheckpointResponse)
read_reply unmarshal unsent = ok none
read_reply unmarshal (replied status body) =
    let read : Run (Option CheckpointResponse) = elim body [
      | none ↦ ok none
      | some text ↦ elim (unmarshal text) [ none ↦ fatal | some r ↦ ok (some r) ]
    ] in
    if leb 400 status && ltb status 500 then fatal else if nat_beq status 200 then read else ok none

-- `stopReason != ""`
unfoldable pub must_stop : Option CheckpointResponse → Bool → Bool
must_stop none closed = true
must_stop (some r) closed = r.ownership_changed || (r.status.not_in_service || closed)

unfoldable pub starting_position : ShardProcessor → String → StartingPosition
starting_position p sn =
    if not (sn == "")
    then after_sequence_number sn
    else if p.assignment.sequence_number == "LATEST"
    then latest
    else after_sequence_number p.assignment.sequence_number

module _ {R : Type 0} (unmarshal : String → Option CheckpointResponse) (cfg : ConsumerConfig)
    (p : ShardProcessor) where
  unfoldable pub checkpoint_once :
      String
      → Bool
      → HttpReply
      → List (Effect R)
      → Run (Option CheckpointResponse × List (Effect R))
  unfolding checkpoint_request read_reply
  checkpoint_once sn closed reply log = do
    response ← read_reply unmarshal reply
    ok (response, log ++ posted (checkpoint_request cfg p sn closed) ∷ [])

  -- The loop of checkpoint, on the replies that come before Stop.
  unfoldable pub retry :
      String
      → Bool
      → List HttpReply
      → List (Effect R)
      → Run (Option CheckpointResponse × List (Effect R))
  unfolding checkpoint_once
  retry sn closed [] log = ok (none, log)
  retry sn closed (reply ∷ rest) log = do
    (response, log') ← checkpoint_once sn closed reply log
    elim response [ some r ↦ ok (some r, log') | none ↦ retry sn closed rest log' ]

  unfoldable pub checkpoint :
      String
      → Bool
      → HttpReply
      → List HttpReply
      → List (Effect R)
      → Run (Option CheckpointResponse × List (Effect R))
  unfolding checkpoint_once retry
  checkpoint sn closed first later log = do
    (response, log') ← checkpoint_once sn closed first log
    elim response [ some r ↦ ok (some r, log') | none ↦ retry sn closed later log' ]

  unfoldable pub handle_event :
      SubscribeToShardEvent R → ℕ → HttpReply → List HttpReply → Reading R → Run (Reading R)
  unfolding checkpoint must_stop
  handle_event evt now first later s = do
    let log = s.log ++ map processed evt.records
    let (sn, closed) : String × Bool = elim evt.continuation_sequence_number [
      | some c ↦ (c, false)
      | none ↦ (s.sn, true)
    ]
    let report : Run (Reading R) = do
      (response, log') ← checkpoint sn closed first later log
      let stopped = record s { sn = sn; log = log'; streaming = false }
      let reported = record s { sn = sn; log = log'; last_checkpoint_time = now }
      ok (if must_stop response closed then stopped else reported)
    let early : Bool = not closed && ltb now (s.last_checkpoint_time + checkpoint_interval cfg)
    if early then ok (record s { sn = sn; log = log }) else report

  -- The loop of handleSubscription. From a nil stream nothing arrives any more but the stop signal.
  unfoldable pub read_stream :
      List (Arrival R) → Reading R → Run (Bool × (String × List (Effect R)))
  unfolding handle_event
  read_stream [] s = ok (false, ("", s.log))
  read_stream (stream_closed ∷ rest) s =
      if s.streaming then ok (true, (s.sn, s.log)) else ok (false, ("", s.log))
  read_stream (nil_event ∷ rest) s =
      let next = read_stream rest s in if s.streaming then next else ok (false, ("", s.log))
  read_stream (nil_member ∷ rest) s =
      let next = read_stream rest s in if s.streaming then next else ok (false, ("", s.log))
  read_stream (other_member ∷ rest) s = if s.streaming then panic else ok (false, ("", s.log))
  read_stream (received evt now first later ∷ rest) s =
      let next = handle_event evt now first later s >>= read_stream rest in
      if s.streaming then next else ok (false, ("", s.log))

  unfoldable pub handle_subscription :
      ℕ → List (Arrival R) → List (Effect R) → Run (Bool × (String × List (Effect R)))
  unfolding read_stream
  handle_subscription clock arrivals log =
      read_stream arrivals
        (record { sn = ""; last_checkpoint_time = clock; streaming = true; log = log })

  -- The loop of Start.
  unfoldable pub subscribe_loop :
      List (Subscription R) → String → List (Effect R) → Run (List (Effect R))
  unfolding starting_position handle_subscription
  subscribe_loop [] sn log = if sn == "CLOSED" then fatal else ok log
  subscribe_loop (failed ∷ rest) sn log =
      let next = subscribe_loop rest sn (log ++ subscribed (starting_position p sn) ∷ []) in
      if sn == "CLOSED" then fatal else next
  subscribe_loop (opened clock arrivals ∷ rest) sn log =
      let next : Run (List (Effect R)) =
        handle_subscription clock arrivals (log ++ subscribed (starting_position p sn) ∷ [])
        >>= λ (ok_to_subscribe, (sn', log')).
            let more = subscribe_loop rest sn' log' in if ok_to_subscribe then more else ok log' in
      if sn == "CLOSED" then fatal else next

  unfoldable pub start : List (Subscription R) → Run (List (Effect R))
  unfolding subscribe_loop
  start subscriptions =
      let a = p.assignment in
      if a.sequence_number == ""
      then fatal
      else if a.sequence_number == "CLOSED"
      then fatal
      else subscribe_loop subscriptions "" []
