-- ===== src/Processor/Protocol.antt =====
-- What a shard processor may do, event by event, and the parts of it that do not depend on the loops.
use libvegas.Base.{
  ◌≡◌, ◌≢◌, refl, Bool, true, false, ◌&&◌, ◌||◌, List, [], ◌∷◌, ◌++◌, Option, none, some, String,
  map, ltb, leb, nat_beq, string_eq, inl, inr, Option-cases,
}
use libvegas.Base.Run.{Run, ok, Returns, returned, Returns-then, Returns-split}
use libvegas.Http.{HttpReply, unsent, replied}
use libvegas.Messages.{CheckpointResponse}
use libvegas.Consumer.{ConsumerConfig}
use libvegas.Worker.{ShardProcessor}
use libvegas.Processor.{
  SubscribeToShardEvent, Effect, subscribed, processed, posted, checkpoint_request, read_reply,
  checkpoint_once, retry, checkpoint, must_stop, starting_position,
}

-- The replies that do not end the process: no 4xx, and no 200 whose body is not a response.
abbrev pub IsFine : (String → Option CheckpointResponse) → HttpReply → Type 0
IsFine unmarshal unsent = Unit {0}
IsFine unmarshal (replied status body) =
    ((leb 400 status && ltb status 500) ≡ false)
    × ((text : String) → nat_beq status 200 ≡ true → body ≡ some text → unmarshal text ≢ none)

abbrev pub AreFine : (String → Option CheckpointResponse) → List HttpReply → Type 0
AreFine unmarshal [] = Unit {0}
AreFine unmarshal (reply ∷ rest) = IsFine unmarshal reply × AreFine unmarshal rest

-- Every event so far names where the shard goes on.
abbrev pub AreOpen : {R : Type 0} → List (SubscribeToShardEvent R) → Type 0
AreOpen [] = Unit {0}
AreOpen (evt ∷ rest) = (evt.continuation_sequence_number ≢ none) × AreOpen rest

pub append-AreOpen :
    {R : Type 0} (es : List (SubscribeToShardEvent R)) (evt : SubscribeToShardEvent R)
    → AreOpen es
    → evt.continuation_sequence_number ≢ none
    → AreOpen (es ++ evt ∷ [])
append-AreOpen [] evt h k = (k, tt)
append-AreOpen (e ∷ rest) evt (h, t) k = (h, append-AreOpen rest evt t k)

-- Where the stream goes on, and the number a checkpoint gives.
abbrev pub cursor : {R : Type 0} → String → SubscribeToShardEvent R → String
cursor sn evt = elim evt.continuation_sequence_number [ none ↦ sn | some c ↦ c ]

abbrev pub reached : {R : Type 0} → SubscribeToShardEvent R → String
reached evt = elim evt.continuation_sequence_number [ none ↦ "CLOSED" | some c ↦ c ]

-- The effects of a processor that was delivered the events `es` and would go on after `sn`: it
-- subscribes and handles events only while the shard is open, handles an event by processing its
-- records in order, and checkpoints only what the last event reached, after its records.
pub data Protocol {R : Type 0} (cfg : ConsumerConfig) (p : ShardProcessor)
    : List (SubscribeToShardEvent R) → String → List (Effect R) → Type 0 where
  begun : Protocol cfg p [] "" []
  asked :
      {es : List (SubscribeToShardEvent R)} {sn : String} {log : List (Effect R)}
      → AreOpen es
      → Protocol cfg p es sn log
      → Protocol cfg p es "" (log ++ subscribed (starting_position p sn) ∷ [])
  refused :
      {es : List (SubscribeToShardEvent R)} {sn : String} {log : List (Effect R)}
      → AreOpen es
      → Protocol cfg p es sn log
      → Protocol cfg p es sn (log ++ subscribed (starting_position p sn) ∷ [])
  handled :
      (es : List (SubscribeToShardEvent R)) {sn : String} {log : List (Effect R)}
      → (evt : SubscribeToShardEvent R) → AreOpen es
      → Protocol cfg p es sn log
      → Protocol cfg p (es ++ evt ∷ []) (cursor sn evt) (log ++ map processed evt.records)
  told :
      (es : List (SubscribeToShardEvent R)) {sn : String} {log : List (Effect R)}
      → (evt : SubscribeToShardEvent R) → Protocol cfg p (es ++ evt ∷ []) sn log
      → Protocol cfg p (es ++ evt ∷ []) sn (
          log
          ++ posted (record {
            assignment_id = p.assignment.id;
            worker_id = cfg.id;
            shard_id = p.assignment.shard_id;
            sequence_number = reached evt;
          })
            ∷ [])

pub read_reply-Returns :
    (unmarshal : String → Option CheckpointResponse) (reply : HttpReply)
    → IsFine unmarshal reply
    → Returns (λ o. Unit {0}) (read_reply unmarshal reply)
unfolding read_reply
read_reply-Returns unmarshal unsent h = returned tt
read_reply-Returns unmarshal (replied status none) (fine, decoded) =
    rw fine (Returns-split (nat_beq status 200) (λ _. returned tt) (λ _. returned tt))
read_reply-Returns unmarshal (replied status (some text)) (fine, decoded) = rw fine (
    Returns-split (nat_beq status 200)
      (λ good. elim (Option-cases (unmarshal text)) [
        | inl garbled ↦ absurd (decoded text good refl garbled)
        | inr (r, read) ↦ rw read (returned tt)
      ])
      (λ _. returned tt))

pub must_stop_closed : (o : Option CheckpointResponse) → must_stop o true ≡ true
unfolding must_stop
must_stop_closed none = refl
must_stop_closed (some r) =
    second_true r.ownership_changed (r.status.not_in_service || true)
      (second_true r.status.not_in_service true refl)
  where
    second_true : (a b : Bool) → b ≡ true → (a || b) ≡ true
    second_true true b h = refl
    second_true false b h = h

-- What holds of the log, whatever number of times the request is sent, holds after a checkpoint.
module _ {R : Type 0} (unmarshal : String → Option CheckpointResponse) (cfg : ConsumerConfig)
    (p : ShardProcessor) (P : List (Effect R) → Type 0) (sn : String) (closed : Bool)
    (grow : (log : List (Effect R))
      → P log
      → P (log ++ posted (checkpoint_request cfg p sn closed) ∷ [])) where
  abbrev Kept : Option CheckpointResponse × List (Effect R) → Type 0
  Kept r = P r.1

  checkpoint_once-Kept :
      (reply : HttpReply) (log : List (Effect R))
      → IsFine unmarshal reply
      → P log
      → Returns Kept (checkpoint_once unmarshal cfg p sn closed reply log)
  unfolding checkpoint_once
  checkpoint_once-Kept reply log fine h =
      Returns-then (read_reply-Returns unmarshal reply fine) λ o _. returned (grow log h)

  answer-Kept :
      (o : Option CheckpointResponse) (log : List (Effect R))
      (next : Run (Option CheckpointResponse × List (Effect R)))
      → P log
      → Returns Kept next
      → Returns Kept (elim o [ some r ↦ ok (some r, log) | none ↦ next ])
  answer-Kept none log next h k = k
  answer-Kept (some r) log next h k = returned h

  retry-Kept :
      (replies : List HttpReply) (log : List (Effect R))
      → AreFine unmarshal replies
      → P log
      → Returns Kept (retry unmarshal cfg p sn closed replies log)
  unfolding retry
  retry-Kept [] log fine h = returned h
  retry-Kept (reply ∷ rest) log (fine, all_fine) h =
      Returns-then (checkpoint_once-Kept reply log fine h)
        λ (o, log') k. answer-Kept o log' _ k (retry-Kept rest log' all_fine k)

  pub checkpoint-Kept :
      (first : HttpReply) (later : List HttpReply) (log : List (Effect R))
      → IsFine unmarshal first
      → AreFine unmarshal later
      → P log
      → Returns Kept (checkpoint unmarshal cfg p sn closed first later log)
  unfolding checkpoint
  checkpoint-Kept first later log fine all_fine h =
      Returns-then (checkpoint_once-Kept first log fine h)
        λ (o, log') k. answer-Kept o log' _ k (retry-Kept later log' all_fine k)
