-- ===== src/Processor/Life.antt =====
-- Start: what a processor does in its life.
use libvegas.Base.{
  ◌≡◌, refl, ◌∙◌, sym, ap, subst, Bool, true, false, List, [], ◌∷◌, ◌++◌, Option, String, map,
  if◌then◌else◌, string_eq, ◌==◌, append_assoc, append_nil,
}
use libvegas.Base.Run.{Run, ok, fatal, Returns, returned, Returns-then}
use libvegas.Messages.{CheckpointResponse}
use libvegas.Consumer.{ConsumerConfig}
use libvegas.Worker.{ShardProcessor}
use libvegas.Processor.{
  SubscribeToShardEvent, Subscription, failed, opened, Effect, Reading, subscribed, processed,
  posted, handle_subscription, starting_position, subscribe_loop, start,
}
use libvegas.Processor.Protocol.{AreOpen, Protocol, begun, asked, refused, handled, told}
use libvegas.Processor.Serving.{
  delivered, delivered_all, AreAllSound, Running, Left, ended, stopped, read_stream-Left,
}

-- The records that were processed, in order.
abbrev pub processed_in : {R : Type 0} → List (Effect R) → List R
processed_in [] = []
processed_in (processed r ∷ rest) = r ∷ processed_in rest
processed_in (subscribed position ∷ rest) = processed_in rest
processed_in (posted request ∷ rest) = processed_in rest

abbrev pub records_of : {R : Type 0} → List (SubscribeToShardEvent R) → List R
records_of [] = []
records_of (evt ∷ rest) = evt.records ++ records_of rest

module _ {R : Type 0} where
  processed_in-append :
      (log more : List (Effect R))
      → processed_in (log ++ more) ≡ processed_in log ++ processed_in more
  processed_in-append [] more = refl
  processed_in-append (processed r ∷ rest) more = ap (λ rs. r ∷ rs) (processed_in-append rest more)
  processed_in-append (subscribed position ∷ rest) more = processed_in-append rest more
  processed_in-append (posted request ∷ rest) more = processed_in-append rest more

  processed_in-map : (rs : List R) → processed_in (map processed rs) ≡ rs
  processed_in-map [] = refl
  processed_in-map (r ∷ rest) = ap (λ rs. r ∷ rs) (processed_in-map rest)

  records_of-append :
      (es : List (SubscribeToShardEvent R)) (evt : SubscribeToShardEvent R)
      → records_of (es ++ evt ∷ []) ≡ records_of es ++ evt.records
  records_of-append [] evt = append_nil evt.records
  records_of-append (e ∷ rest) evt =
      ap (λ rs. e.records ++ rs) (records_of-append rest evt)
      ∙ sym (append_assoc e.records (records_of rest) evt.records)

unnumbered :
    {A : Type 0} {P : A → Type 0} (b : Bool) {x : Run A}
    → b ≡ false
    → Returns P x
    → Returns P (if b then fatal else x)
unnumbered true e h = absurd (cc e)
unnumbered false e h = h

module _ {R : Type 0} (unmarshal : String → Option CheckpointResponse) (cfg : ConsumerConfig)
    (p : ShardProcessor) where
  -- A processor that keeps to the protocol has processed the records of its events, each once, in order.
  all_processed :
      (es : List (SubscribeToShardEvent R)) (sn : String) (log : List (Effect R))
      → Protocol cfg p es sn log
      → processed_in log ≡ records_of es
  all_processed es sn log begun = refl
  all_processed es sn log (asked {log = l} k h) =
      processed_in-append l _ ∙ append_nil (processed_in l) ∙ all_processed es _ l h
  all_processed es sn log (refused {log = l} k h) =
      processed_in-append l _ ∙ append_nil (processed_in l) ∙ all_processed es _ l h
  all_processed es sn log (handled es' {log = l} evt k h) =
      processed_in-append l _
      ∙ ap (λ rs. processed_in l ++ rs) (processed_in-map evt.records)
      ∙ ap (λ rs. rs ++ evt.records) (all_processed es' _ l h)
      ∙ sym (records_of-append es' evt)
  all_processed es sn log (told es' {log = l} evt h) =
      processed_in-append l _ ∙ append_nil (processed_in l) ∙ all_processed es _ l h

  -- The effects are those of a first part of the events, and no record of it is lost or doubled.
  pub record Allowed (es : List (SubscribeToShardEvent R)) (log : List (Effect R)) : Type 0 where
    pub seen : List (SubscribeToShardEvent R)
    pub unseen : List (SubscribeToShardEvent R)
    pub sn : String
    pub split : seen ++ unseen ≡ es
    pub allowed : Protocol cfg p seen sn log
    pub complete : processed_in log ≡ records_of seen

  Protocol-Allowed :
      (es seen unseen : List (SubscribeToShardEvent R)) (sn : String) (log : List (Effect R))
      → seen ++ unseen ≡ es
      → Protocol cfg p seen sn log
      → Allowed es log
  Protocol-Allowed es seen unseen sn log e h = record {
    seen = seen;
    unseen = unseen;
    sn = sn;
    split = e;
    allowed = h;
    complete = all_processed seen sn log h;
  }

  -- What follows a subscription.
  after-Allowed :
      (subs : List (Subscription R)) (es arrived : List (SubscribeToShardEvent R))
      (r : Bool × (String × List (Effect R)))
      → ((es' : List (SubscribeToShardEvent R)) (sn : String) (log : List (Effect R))
          → Protocol cfg p es' sn log
          → AreOpen es'
          → (sn == "CLOSED") ≡ false
          → Returns
              (Allowed (es' ++ delivered_all subs))
              (subscribe_loop unmarshal cfg p subs sn log))
      → Left unmarshal cfg p es arrived r
      → Returns
          (Allowed (es ++ (arrived ++ delivered_all subs)))
          (if r.0 then subscribe_loop unmarshal cfg p subs r.1.0 r.1.1 else ok r.1.1)
  after-Allowed subs es arrived r next (ended {sn = sn} {log = log} h k n) =
      subst (λ xs. Returns (Allowed xs) (subscribe_loop unmarshal cfg p subs sn log))
        (append_assoc es arrived (delivered_all subs)) (next (es ++ arrived) sn log h k n)
  after-Allowed subs es arrived r next (stopped seen rest {sn = sn} {log = log} e h) = returned (
      Protocol-Allowed _ seen (rest ++ delivered_all subs) sn log
        (sym (append_assoc seen rest (delivered_all subs))
          ∙ ap (λ xs. xs ++ delivered_all subs) e
          ∙ append_assoc es arrived (delivered_all subs))
        h)

  subscribe_loop-Allowed :
      (subs : List (Subscription R)) (es : List (SubscribeToShardEvent R)) (sn : String)
      (log : List (Effect R))
      → AreAllSound unmarshal subs
      → Protocol cfg p es sn log
      → AreOpen es
      → (sn == "CLOSED") ≡ false
      → Returns (Allowed (es ++ delivered_all subs)) (subscribe_loop unmarshal cfg p subs sn log)
  unfolding subscribe_loop handle_subscription
  subscribe_loop-Allowed [] es sn log sound h k n =
      unnumbered (sn == "CLOSED") n (returned (Protocol-Allowed _ es [] sn log refl h))
  subscribe_loop-Allowed (failed ∷ rest) es sn log sound h k n =
      unnumbered (sn == "CLOSED") n (subscribe_loop-Allowed rest es sn _ sound (refused k h) k n)
  subscribe_loop-Allowed (opened clock arrivals ∷ rest) es sn log (sound, all_sound) h k n =
      let s : Reading R = record {
        sn = "";
        last_checkpoint_time = clock;
        streaming = true;
        log = log ++ subscribed (starting_position p sn) ∷ [];
      } in
      let first : Running unmarshal cfg p es s = record {
        allowed = asked k h;
        flowing = λ e. k;
        numbered = refl;
      } in
      unnumbered (sn == "CLOSED") n (
        Returns-then (read_stream-Left unmarshal cfg p arrivals es s sound first) λ r left.
          after-Allowed rest es (delivered arrivals) r
            (λ es' sn' log' h' k' n'. subscribe_loop-Allowed rest es' sn' log' all_sound h' k' n')
            left)

  -- A processor whose assignment has a sequence number other than CLOSED returns without an exit
  -- or a panic, when only known types of events arrive, no event names CLOSED as its number, no
  -- reply is a 4xx and every body of a 200 can be decoded; the records it processed are those of
  -- the first events that were delivered, each once and in order; it subscribes and handles events
  -- only while the shard is open, and what it posts carries its worker, shard and assignment id
  -- and the number of the last event handled, or CLOSED after the last event of the shard, after
  -- the records of that event.
  pub start_lem :
      (subs : List (Subscription R))
      → (p.assignment.sequence_number == "") ≡ false
      → (p.assignment.sequence_number == "CLOSED") ≡ false
      → AreAllSound unmarshal subs
      → Returns (Allowed (delivered_all subs)) (start unmarshal cfg p subs)
  unfolding start
  start_lem subs some_number unclosed sound =
      unnumbered (p.assignment.sequence_number == "") some_number (
        unnumbered (p.assignment.sequence_number == "CLOSED") unclosed
          (subscribe_loop-Allowed subs [] "" [] sound begun tt refl))
