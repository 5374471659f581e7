-- ===== src/Processor/Serving.antt =====
-- handleSubscription and Start: what a processor does is allowed, for as long as it runs.
use libvegas.Base.{
  ℕ, ◌+◌, ◌≡◌, refl, ◌∙◌, Bool, true, false, List, [], ◌∷◌, ◌++◌, Option, none, some, String, map,
  ltb, if◌then◌else◌, string_eq, ◌==◌, append_assoc, append_nil,
}
use libvegas.Base.Run.{Run, ok, Returns, returned, Returns-then, Returns-weaken, Returns-split}
use libvegas.Http.{HttpReply}
use libvegas.Messages.{CheckpointResponse}
use libvegas.Consumer.{ConsumerConfig, checkpoint_interval}
use libvegas.Worker.{ShardProcessor}
use libvegas.Processor.{
  SubscribeToShardEvent, Arrival, stream_closed, nil_event, nil_member, other_member, received,
  Subscription, failed, opened, Effect, processed, Reading, must_stop, checkpoint_request,
  handle_event, read_stream,
}
use libvegas.Processor.Protocol.{
  IsFine, AreFine, AreOpen, append-AreOpen, Protocol, handled, told, must_stop_closed,
  checkpoint-Kept,
}

-- The events of a stream, up to its end.
abbrev pub delivered : {R : Type 0} → List (Arrival R) → List (SubscribeToShardEvent R)
delivered [] = []
delivered (received evt now first later ∷ rest) = evt ∷ delivered rest
delivered (nil_event ∷ rest) = delivered rest
delivered (nil_member ∷ rest) = delivered rest
delivered (stream_closed ∷ rest) = []
delivered (other_member ∷ rest) = []

abbrev pub delivered_all : {R : Type 0} → List (Subscription R) → List (SubscribeToShardEvent R)
delivered_all [] = []
delivered_all (failed ∷ rest) = delivered_all rest
delivered_all (opened clock arrivals ∷ rest) = delivered arrivals ++ delivered_all rest

-- Nothing of an unknown type arrives, no sequence number is "CLOSED", and the replies are fine.
abbrev pub AreSound :
    {R : Type 0} → (String → Option CheckpointResponse) → List (Arrival R) → Type 0
AreSound unmarshal [] = Unit {0}
AreSound unmarshal (received evt now first later ∷ rest) =
    (((c : String) → evt.continuation_sequence_number ≡ some c → (c == "CLOSED") ≡ false)
      × IsFine unmarshal first
      × AreFine unmarshal later)
    × AreSound unmarshal rest
AreSound unmarshal (nil_event ∷ rest) = AreSound unmarshal rest
AreSound unmarshal (nil_member ∷ rest) = AreSound unmarshal rest
AreSound unmarshal (stream_closed ∷ rest) = Unit {0}
AreSound unmarshal (other_member ∷ rest) = ⊥

abbrev pub AreAllSound :
    {R : Type 0} → (String → Option CheckpointResponse) → List (Subscription R) → Type 0
AreAllSound unmarshal [] = Unit {0}
AreAllSound unmarshal (failed ∷ rest) = AreAllSound unmarshal rest
AreAllSound unmarshal (opened clock arrivals ∷ rest) =
    AreSound unmarshal arrivals × AreAllSound unmarshal rest

module _ {R : Type 0} (unmarshal : String → Option CheckpointResponse) (cfg : ConsumerConfig)
    (p : ShardProcessor) where
  -- The loop of handleSubscription between two arrivals.
  pub record Running (es : List (SubscribeToShardEvent R)) (s : Reading R) : Type 0 where
    pub allowed : Protocol cfg p es s.sn s.log
    pub flowing : s.streaming ≡ true → AreOpen es
    pub numbered : (s.sn == "CLOSED") ≡ false

  either-Running :
      (es : List (SubscribeToShardEvent R)) (b : Bool) (s t : Reading R)
      → Running es s
      → Running es t
      → Running es (if b then s else t)
  either-Running es true s t h k = h
  either-Running es false s t h k = k

  -- The event by its fields.
  abbrev event_at : List R → Option String → SubscribeToShardEvent R
  event_at records c = record { records = records; continuation_sequence_number = c }

  event-Running :
      (es : List (SubscribeToShardEvent R)) (records : List R) (now : ℕ) (first : HttpReply)
      (later : List HttpReply) (s : Reading R)
      → IsFine unmarshal first
      → AreFine unmarshal later
      → AreOpen es
      → Running es s
      → (c : Option String) → ((d : String) → c ≡ some d → (d == "CLOSED") ≡ false)
      → Returns
          (Running (es ++ event_at records c ∷ []))
          (handle_event unmarshal cfg p (event_at records c) now first later s)
  unfolding handle_event checkpoint_request
  event-Running es records now first later s fine all_fine unclosed h none named =
      let evt = event_at records none in
      Returns-then
        (checkpoint-Kept unmarshal cfg p (Protocol cfg p (es ++ evt ∷ []) s.sn) s.sn true
          (λ log l. told es evt l) first later _ fine all_fine (handled es evt unclosed h.allowed))
        λ (o, log') k.
          rw (must_stop_closed o)
            (returned (record { allowed = k; flowing = λ e. absurd (cc e); numbered = h.numbered }))
  event-Running es records now first later s fine all_fine unclosed h (some c) named =
      let evt = event_at records (some c) in
      let allowed : Protocol cfg p (es ++ evt ∷ []) c (s.log ++ map processed records) =
        handled es evt unclosed h.allowed in
      let unclosed' = append-AreOpen es evt unclosed (λ e. cc e) in
      Returns-split (ltb now (s.last_checkpoint_time + checkpoint_interval cfg))
        (λ early.
          returned
            (record { allowed = allowed; flowing = λ e. unclosed'; numbered = named c refl }))
        (λ due.
          Returns-then
            (checkpoint-Kept unmarshal cfg p (Protocol cfg p (es ++ evt ∷ []) c) c false
              (λ log l. told es evt l) first later _ fine all_fine allowed)
            λ (o, log') k. returned (
              either-Running (es ++ evt ∷ []) (must_stop o false) _ _
                (record { allowed = k; flowing = λ e. unclosed'; numbered = named c refl })
                (record { allowed = k; flowing = λ e. unclosed'; numbered = named c refl })))

  -- How a stream is left: at its end, with all of it handled, or at the stop signal.
  pub data Left (es arrived : List (SubscribeToShardEvent R))
      : Bool × (String × List (Effect R)) → Type 0 where
    ended :
        {sn : String} {log : List (Effect R)}
        → Protocol cfg p (es ++ arrived) sn log
        → AreOpen (es ++ arrived)
        → (sn == "CLOSED") ≡ false
        → Left es arrived (true, (sn, log))
    stopped :
        (seen rest : List (SubscribeToShardEvent R)) {sn : String} {log : List (Effect R)}
        → seen ++ rest ≡ es ++ arrived
        → Protocol cfg p seen sn log
        → Left es arrived (false, ("", log))

  -- Nothing more arrives once the stream is nil.
  streaming-Left :
      (es arrived : List (SubscribeToShardEvent R)) (s : Reading R)
      (next : Run (Bool × (String × List (Effect R))))
      → Running es s
      → (s.streaming ≡ true → Returns (Left es arrived) next)
      → Returns (Left es arrived) (if s.streaming then next else ok (false, ("", s.log)))
  streaming-Left es arrived s next h k =
      Returns-split s.streaming k λ _. returned (stopped es arrived refl h.allowed)

  Left-after :
      (es : List (SubscribeToShardEvent R)) (evt : SubscribeToShardEvent R)
      (arrived : List (SubscribeToShardEvent R)) (r : Bool × (String × List (Effect R)))
      → Left (es ++ evt ∷ []) arrived r
      → Left es (evt ∷ arrived) r
  Left-after es evt arrived r (ended h k n) =
      let e = append_assoc es (evt ∷ []) arrived in ended (rw⁻¹ e h) (rw⁻¹ e k) n
  Left-after es evt arrived r (stopped seen rest e h) =
      stopped seen rest (e ∙ append_assoc es (evt ∷ []) arrived) h

  pub read_stream-Left :
      (arrivals : List (Arrival R)) (es : List (SubscribeToShardEvent R)) (s : Reading R)
      → AreSound unmarshal arrivals
      → Running es s
      → Returns (Left es (delivered arrivals)) (read_stream unmarshal cfg p arrivals s)
  unfolding read_stream
  read_stream-Left [] es s sound h = returned (stopped es [] refl h.allowed)
  read_stream-Left (stream_closed ∷ rest) es s sound h =
      let e = append_nil es in
      streaming-Left es [] s _ h
        λ on. returned (ended (rw e h.allowed) (rw e (h.flowing on)) h.numbered)
  read_stream-Left (nil_event ∷ rest) es s sound h =
      streaming-Left es (delivered rest) s _ h λ on. read_stream-Left rest es s sound h
  read_stream-Left (nil_member ∷ rest) es s sound h =
      streaming-Left es (delivered rest) s _ h λ on. read_stream-Left rest es s sound h
  read_stream-Left (other_member ∷ rest) es s sound h = absurd sound
  read_stream-Left (received evt now first later ∷ rest) es s ((named, fine, all_fine), sound) h =
      streaming-Left es (evt ∷ delivered rest) s _ h λ on.
        Returns-weaken
          (Returns-then
            (event-Running es evt.records now first later s fine all_fine (h.flowing on) h
              evt.continuation_sequence_number named)
            λ t k. read_stream-Left rest (es ++ evt ∷ []) t sound k)
          λ r. Left-after es evt (delivered rest) r
