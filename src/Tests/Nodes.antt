-- ===== src/Tests/Nodes.antt =====
-- The theorems on processors, leaders, exchanges and configurations, on concrete ones.
use libvegas.Base.{
  ℕ, true, false, [], ◌∷◌, List, Option, none, some, String, ◌≡◌, ◌≢◌, refl, arith, string_eq, ◌==◌,
  if◌then◌else◌, ◌++◌,
}
use mathlib.Core.List.Perm
use libvegas.Base.Run.{ok, Returns, returned}
use libvegas.Base.Partial.{Unless}
use libvegas.Manager.Assign.{handle_assign_request}
use libvegas.Manager.Checkpoint.{handle_checkpoint_request}
use libvegas.Base.Text.{split, split_at}
use libvegas.Messages.{AssignResponse, CheckpointResponse}
use libvegas.Http.{unsent, replied}
use libvegas.Consumer.{ConsumerConfig}
use libvegas.Worker.Life.{Ended, start-Ended}
use libvegas.Worker
use libvegas.Base.Map.{has}
use libvegas.Worker.{Reply, ShardProcessor, processor, assign_once, answered}
use libvegas.Worker.Bounds.{HasGrown, assign_once-HasGrown}
use libvegas.Processor.{
  Subscription, failed, opened, received, stream_closed, nil_event, start, checkpoint,
  checkpoint_request,
}
use libvegas.Processor.Serving.{delivered_all, AreAllSound}
use libvegas.Processor.Life.{Allowed, start_lem}
use libvegas.Processor.Retry.{AreErrors, no_connection, cut_off, posts, checkpoint-AreErrors}
use text.Mathlib.TextBridge.{of_list}
use libvegas.Leader.{Round, elected, elect}
use libvegas.Leader.Terms.{last_term, IsSound, Standing, elect_lem}
use libvegas.Config.{PopConfig, Urls}
use libvegas.Config.Options.{new_pop_config, with_id, with_etcd_peer_urls, with_etcd_client_urls}
use libvegas.Config.Server.{etcd_config}
use libvegas.Config.Cluster.{Parsed, Configured, etcd_config_lem}
use libvegas.Manager.{ManagerService}
use libvegas.Manager.Sync.{IsSynced}
use libvegas.Manager.Session.{Served, HasSpent}
use libvegas.Manager.Outcome.{Outcome}
use libvegas.Manager.Routes.{state_critical, assign}
use libvegas.Manager.Routes
use libvegas.Manager.Exchange.{heard, confirmed, assign_lem, checkpoint_lem}
use libvegas.Tests.{root, in_order}
use libvegas.Tests.Coding
use libvegas.Tests.Coding.{codec, codec-laws, assign_request, assign_response}
use libvegas.Tests.Handlers.{
  lineage, lineage-IsLineage, AnyName, heavy, closing, closing-IsSynced, ask,
}
use libvegas.Tests.Examples.{
  worker, worker-IsWorker, moved, manager, manager-IsSynced, memory, memory-laws, listing,
}
use libvegas.Tests.Examples

abbrev accepted : CheckpointResponse
accepted = record { status = record { not_in_service = false }; ownership_changed = false }

abbrev parse_any : String → Option CheckpointResponse
parse_any text = if text == "garbled" then none else some accepted

abbrev settings : ConsumerConfig
settings = record {
  id = "a";
  stream_name = "stream";
  efo_consumer_arn = "arn";
  name = "consumer";
  pop_urls = "http://m1";
  healthcheck_timeout_milliseconds = 1000;
  worker_inactivity_timeout_milliseconds = 5000;
  checkpoint_interval_milliseconds = 1;
  checkpoint_retry_interval_milliseconds = 1000;
  apply_request_timeout_milliseconds = 500;
  checkpoint_request_timeout_milliseconds = 500;
  standalone_consumer = false;
}

abbrev of_s0 : ShardProcessor
of_s0 = processor "http://m1" (record { id = 7; shard_id = "s0"; sequence_number = "40" })

-- A subscription that is refused, one that ends after an event, and one that reaches the end of the shard.
abbrev life : List (Subscription ℕ)
life =
    failed
    ∷ opened 0 (
        received (record { records = 1 ∷ 2 ∷ []; continuation_sequence_number = some "42" }) 2000000
          unsent (replied 200 (some "{}") ∷ [])
        ∷ nil_event
        ∷ stream_closed
        ∷ [])
    ∷ opened 3000000 (
        received (record { records = 3 ∷ []; continuation_sequence_number = none }) 3000001
          (replied 200 (some "{}")) []
        ∷ [])
    ∷ []

not_closed : (c : String) → some "42" ≡ some c → (c == "CLOSED") ≡ false
not_closed c h = let same : "42" ≡ c = cc h in rw⁻¹ same refl

garbage : (text : String) → some "{}" ≡ some text → parse_any text ≢ none
garbage text h = let same : "{}" ≡ text = cc h in rw⁻¹ same λ e. cc e

life-AreAllSound : AreAllSound parse_any life
life-AreAllSound = (
  ((not_closed, tt, ((refl, λ text good h. garbage text h), tt)), tt),
  ((((λ c h. absurd (cc h)), (refl, λ text good h. garbage text h), tt), tt), tt),
)

start_lem_example :
    Returns
      (Allowed parse_any settings of_s0 (delivered_all life))
      (start parse_any settings of_s0 life)
start_lem_example = start_lem parse_any settings of_s0 life refl refl life-AreAllSound

unread-AreErrors : AreErrors (unsent ∷ replied 200 none ∷ [])
unread-AreErrors = (no_connection, (cut_off, tt))

checkpoint-AreErrors_example :
    ((unsent ∷ replied 200 none ∷ replied 200 (some "{}") ∷ []
        ≡ unsent ∷ replied 200 none ∷ [] ++ replied 200 (some "{}") ∷ [])
      → checkpoint {R = ℕ} parse_any settings of_s0 "42" false unsent
          (replied 200 none ∷ replied 200 (some "{}") ∷ [])
          []
        ≡ ok (
          some accepted,
          []
              ++ posts
                  (checkpoint_request settings of_s0 "42" false)
                  (unsent ∷ replied 200 none ∷ [] ++ replied 200 (some "{}") ∷ []),
        ))
    × ((unsent ∷ replied 200 none ∷ replied 200 (some "{}") ∷ [] ≡ unsent ∷ replied 200 none ∷ [])
        → checkpoint {R = ℕ} parse_any settings of_s0 "42" false unsent
            (replied 200 none ∷ replied 200 (some "{}") ∷ [])
            []
          ≡ ok (
            none,
            []
                ++ posts
                    (checkpoint_request settings of_s0 "42" false)
                    (unsent ∷ replied 200 none ∷ []),
          ))
checkpoint-AreErrors_example =
    checkpoint-AreErrors parse_any settings of_s0 "42" false unsent
      (replied 200 none ∷ replied 200 (some "{}") ∷ []) (unsent ∷ replied 200 none ∷ []) [] "{}"
      accepted [] unread-AreErrors refl

assign_once-HasGrown_example : Returns (HasGrown worker) (assign_once 9000000000 moved worker)
assign_once-HasGrown_example =
    assign_once-HasGrown 9000000000 moved worker worker-IsWorker (omega arith, omega arith)
      (λ e. cc e) λ e. cc e

-- Two terms of a leader: the session ends, then the context.
abbrev terms : List (Round (String → Option String))
terms = elected 5 (λ key. none) listing ok true ∷ elected 9 (λ key. none) listing ok false ∷ []

ok-IsSound : (rev : ℕ) → IsSound memory rev (λ key. none) listing ok
ok-IsSound rev = record {
  found = λ key. none;
  reads = λ key. refl;
  all = root "s0" ∷ root "s1" ∷ [];
  roots = root "s0" ∷ root "s1" ∷ [];
  lists = refl;
  tops = refl;
  serves = λ n t. returned (t.synced, t.term_set);
}

abbrev follower : ManagerService
follower = record manager { in_service = false }

follower-IsSynced : IsSynced follower
follower-IsSynced = record {
  heartbeats = manager-IsSynced.heartbeats;
  direction = manager-IsSynced.direction;
  counts = manager-IsSynced.counts;
  listed = manager-IsSynced.listed;
  known = manager-IsSynced.known;
  offers = manager-IsSynced.offers;
  distinct = manager-IsSynced.distinct;
  counted = manager-IsSynced.counted;
  noted = manager-IsSynced.noted;
  fresh = manager-IsSynced.fresh;
}

elect_lem_example : Returns (Standing memory (last_term terms)) (elect memory terms follower)
elect_lem_example =
    elect_lem memory terms follower (ok-IsSound 5, (ok-IsSound 9, tt)) follower-IsSynced refl

-- Urls that are texts, all of one scheme and port.
abbrev pub plain : Urls String
plain = record {
  parse = λ s. if s == "" then none else some s;
  scheme = λ s. "http";
  port = λ s. "12001";
  hostname = λ s. "localhost";
}

abbrev node_two : PopConfig
node_two = new_pop_config "pop" "stream" (
    with_id 2
    ∷ with_etcd_peer_urls "http://p1:12001,http://p2:12001"
    ∷ with_etcd_client_urls "http://c1,http://c2"
    ∷ [])

etcd_config_lem_example :
    Returns (Parsed plain (Configured plain node_two)) (etcd_config plain node_two)
unfolding new_pop_config split split_at
etcd_config_lem_example = etcd_config_lem plain node_two (omega arith) (omega arith) (omega arith)

assign_lem_example :
    Unless
      (HasSpent in_order (λ m. Perm.refl m) lineage 3 9000000000 9000000000 ask closing)
      (λ x.
        (r : AssignResponse) × (handle_assign_request in_order lineage 3 9000000000 9000000000 ask
            closing
          ≡ ok (r, x.1))
        × Served in_order (λ m. Perm.refl m) lineage AnyName ask closing (r, x.1)
        × (heard (codec assign_response) x.0 ≡ answered r))
      (state_critical (
        assign in_order lineage
          (codec assign_request)
          (codec assign_response)
          3
          9000000000
          9000000000
          (some (of_list (assign_request.enc ask [])))
          closing))
assign_lem_example =
    assign_lem in_order (λ m. Perm.refl m) lineage AnyName heavy lineage-IsLineage
      (codec assign_request) (codec assign_response) (codec-laws assign_request)
      (codec-laws assign_response) 3 9000000000 9000000000 ask (of_list (assign_request.enc ask []))
      closing refl closing-IsSynced (tt, tt) (omega arith) (omega arith)

abbrev posted_body : String
posted_body = of_list (Coding.checkpoint_request.enc Examples.checkpoint [])

checkpoint_lem_example :
    Returns
      (λ (response, s', n).
        (o : Option CheckpointResponse) × (handle_checkpoint_request memory
            (λ c s. s)
            ok
            Examples.checkpoint
            ((λ _. none), manager)
          ≡ ok (o, s', n))
        × Outcome memory
            (λ s. s)
            memory-laws
            (λ c s. s)
            ok
            Examples.checkpoint
            (λ _. none)
            manager
            (o, s', n)
        × (confirmed (codec Coding.checkpoint_response) response ≡ ok o))
      (state_critical (
        Routes.checkpoint memory
          (codec Coding.checkpoint_request)
          (codec Coding.checkpoint_response)
          (λ c s. s)
          ok
          (some posted_body)
          ((λ _. none), manager)))
checkpoint_lem_example =
    checkpoint_lem memory (λ s. s) memory-laws (codec Coding.checkpoint_request)
      (codec Coding.checkpoint_response) (codec-laws Coding.checkpoint_request)
      (codec-laws Coding.checkpoint_response) (λ c s. s) ok Examples.checkpoint posted_body
      (λ _. none) manager refl manager-IsSynced (returned manager-IsSynced)

abbrev rounds : List (ℕ × Reply)
rounds = (9000000000, moved) ∷ (9000000001, Reply.failed) ∷ []

start-Ended_example :
    Returns (Ended rounds (λ k. has k worker.shard_processors)) (Worker.start rounds worker)
start-Ended_example =
    start-Ended rounds worker ((λ e. cc e), (λ e. cc e), ((λ e. cc e), (λ e. cc e), tt))
      worker-IsWorker (omega arith, omega arith)
