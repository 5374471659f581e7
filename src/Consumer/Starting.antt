-- ===== src/Consumer/Starting.antt =====
-- consumer/consumer.go: the constructors of a consumer, and its Start, with a node of its own if it
-- stands alone. Of the clients of libraries it is left whether they could be made.
use Prim.Native.String.{◌++◌ as append}
use libvegas.Base.{
  not, ◌&&◌, ◌≡◌, refl, sym, subst, ◌++◌, Bool, true, false, List, [], ◌∷◌, Option, none, some,
  String, if◌then◌else◌, ◌⊎◌, inl, inr, arith,
}
use libvegas.Base.Run.{panic, Run, ok, ◌>>=◌, Returns, returned, Returns-then}
use libvegas.Base.Text.{split, split_at}
use libvegas.Config.{PopConfig, Urls, url_at, get_manager_listen_url}
use libvegas.Config.Options.{new_pop_config, apply_options}
use libvegas.Consumer.{ConsumerConfig, as_standalone}
use libvegas.Worker.{WorkerService, new_worker, current_manager}
use libvegas.Manager.Routes.{HttpServer, routes, start_server}
use libvegas.Pop.{
  shard_discovery, manager, etcd_server, leader, PopService, Answers, without_clients, idle,
  new_pop_service, start,
}
use libvegas.Pop.Booting.{Excused, IsPlaced, IsBooted, start-IsBooted}

-- `opt(cfg)`, one after another
unfoldable pub apply_all : List (ConsumerConfig → ConsumerConfig) → ConsumerConfig → ConsumerConfig
apply_all [] cfg = cfg
apply_all (opt ∷ rest) cfg = apply_all rest (opt cfg)

-- `worker` and `pop` are the components that are there to be waited for, and `ready` is the
-- channel, closed or not.
pub record Consumer : Type 0 where
  pub cfg : ConsumerConfig
  pub worker : Option WorkerService
  pub pop : Option PopService
  pub ready : Bool

-- `id` is a new UUID. Without a logger or a Kinesis client it panics.
unfoldable pub must_new_consumer :
    Answers
    → String
    → String
    → String
    → String
    → String
    → List (ConsumerConfig → ConsumerConfig)
    → Run Consumer
unfolding apply_all
must_new_consumer answers id name stream_name efo_consumer_arn pop_urls opts =
    let c : Consumer = record {
      cfg = apply_all opts (record {
        id = id;
        name = name;
        stream_name = stream_name;
        efo_consumer_arn = efo_consumer_arn;
        pop_urls = pop_urls;
        healthcheck_timeout_milliseconds = 1000;
        worker_inactivity_timeout_milliseconds = 5000;
        checkpoint_interval_milliseconds = 60000;
        checkpoint_retry_interval_milliseconds = 1000;
        apply_request_timeout_milliseconds = 500;
        checkpoint_request_timeout_milliseconds = 500;
        standalone_consumer = false;
      });
      worker = none;
      pop = none;
      ready = false;
    } in
    if not answers.has_logger && not answers.production_logger
    then panic
    else if not answers.has_kinesis_client && not answers.loaded
    then panic
    else ok c

unfoldable pub must_new_standalone_consumer :
    Answers
    → String
    → String
    → String
    → String
    → List (ConsumerConfig → ConsumerConfig)
    → Run Consumer
unfolding must_new_consumer
must_new_standalone_consumer answers id name stream_name efo_consumer_arn opts =
    must_new_consumer answers id name stream_name efo_consumer_arn "" (opts ++ as_standalone ∷ [])

-- The worker, on the urls of the configuration.
unfoldable pub start_worker : Consumer → Consumer
start_worker c = record c { worker = some (new_worker (split c.cfg.pop_urls)); ready = true }

-- What follows the start of the node: after an error there is no worker.
unfoldable pub after_pop : Consumer → Bool × PopService → Consumer
unfolding start_worker
after_pop c (true, p) = record c { pop = some p; ready = true }
after_pop c (false, p) =
    start_worker (record c { cfg = record (c.cfg) { pop_urls = p.cfg.pop_urls }; pop = some p })

taken :
    {A : Type 0} {P : A → Type 0} {x : Run A} (b : Bool) (y : Run A)
    → b ≡ true
    → Returns P x
    → Returns P (if b then x else y)
taken true y e h = h
taken false y e h = absurd (cc e)

passed :
    {A : Type 0} {P : A → Type 0} (b : Bool) (x : Run A)
    → b ≡ false
    → Returns P x
    → Returns P (if b then panic else x)
passed true x e h = absurd (cc e)
passed false x e h = h

given_one : (a : Bool) → a ≡ true → not a ≡ false
given_one a e = rw e refl

given_other : (a b : Bool) → b ≡ true → (not a && not b) ≡ false
given_other true b e = refl
given_other false b e = given_one b e

module _ {U : Type 0} (net : Urls U) where
  unfoldable pub start_consumer : Answers → Consumer → Run Consumer
  unfolding new_pop_service start_worker after_pop
  start_consumer answers c =
      if c.cfg.standalone_consumer
      then (do
        p ← new_pop_service (without_clients answers) c.cfg.name c.cfg.stream_name []
        booted ← start net (without_clients answers) p
        ok (after_pop c booted))
      else ok (start_worker c)

  -- The node that a consumer starts for itself.
  abbrev pub own_pop : Consumer → PopConfig
  own_pop c = new_pop_config c.cfg.name c.cfg.stream_name []

  own_pop-IsPlaced : (c : Consumer) → IsPlaced (own_pop c)
  unfolding new_pop_config apply_options split split_at
  own_pop-IsPlaced c = record {
    low = omega arith;
    pops = omega arith;
    peers = omega arith;
    clients = omega arith;
  }

  -- The consumer is ready; all of its node runs, and the worker turns first to the url that the
  -- manager of the node listens at, or the node failed to start and there is no worker.
  abbrev pub IsServed : Answers → Consumer → Type 0
  IsServed answers d =
      (d.ready ≡ true)
      × ((p : PopService) × (d.pop ≡ some p)
          × (((d.worker ≡ none) × Excused net (without_clients answers) p.cfg)
              ⊎ ((w : WorkerService) × (url : String) × (u : U) × (server : HttpServer) × (d.worker
                    ≡ some w)
                  × (p.running ≡ shard_discovery ∷ manager ∷ etcd_server ∷ leader ∷ [])
                  × (current_manager w ≡ ok url)
                  × (net.parse url ≡ some u)
                  × (start_server net p.cfg ≡ ok (some server))
                  × (server.addr ≡ append (net.hostname u) (append ":" (net.port u)))
                  × (server.handlers ≡ routes))))

  own_url :
      (c : Consumer) (u : U)
      → get_manager_listen_url net (own_pop c) ≡ ok (some u)
      → net.parse "http://localhost:13001" ≡ some u
  unfolding get_manager_listen_url url_at new_pop_config apply_options split split_at
  own_url c u e = cc e

  own_current :
      (c : Consumer)
      → current_manager (new_worker (split (own_pop c).pop_urls)) ≡ ok "http://localhost:13001"
  unfolding current_manager new_worker new_pop_config apply_options split split_at
  own_current c = refl

  after_pop-IsServed :
      (answers : Answers) (c : Consumer)
      → c.worker ≡ none
      → (failed : Bool) (p : PopService)
      → IsBooted net (without_clients answers) (own_pop c) failed p
      → IsServed answers (after_pop c (failed, p))
  unfolding after_pop start_worker
  after_pop-IsServed answers c fresh true p b = (
    refl,
    (
      p,
      refl,
      inl (fresh, subst (Excused net (without_clients answers)) (sym b.same) (b.excused refl)),
    ),
  )
  after_pop-IsServed answers c fresh false p b =
      let (u, server, e, served, addr, handlers) = b.listens refl in
      let worker = new_worker (split p.cfg.pop_urls) in
      let asks : current_manager worker ≡ ok "http://localhost:13001" =
        subst
          (λ cfg. current_manager (new_worker (split cfg.pop_urls)) ≡ ok "http://localhost:13001")
          (sym b.same) (own_current c) in
      let at : start_server net p.cfg ≡ ok (some server) =
        subst (λ cfg. start_server net cfg ≡ ok (some server)) (sym b.same) served in
      (
        refl,
        (
          p,
          refl,
          inr (
            worker,
            "http://localhost:13001",
            u,
            server,
            refl,
            b.all_started refl,
            asks,
            own_url c u e,
            at,
            addr,
            handlers,
          ),
        ),
      )

  start_consumer-IsServed :
      (answers : Answers) (c : Consumer)
      → answers.production_logger ≡ true
      → c.worker ≡ none
      → c.cfg.standalone_consumer ≡ true
      → Returns (IsServed answers) (start_consumer answers c)
  unfolding start_consumer new_pop_service
  start_consumer-IsServed answers c logs fresh alone = taken c.cfg.standalone_consumer _ alone (
      Returns-then
        (passed {P = λ p. p ≡ idle (own_pop c)} (not answers.production_logger)
          (ok (idle (own_pop c))) (given_one answers.production_logger logs) (returned refl))
        λ p same.
          Returns-then
            (subst
              (λ q.
                Returns
                  (λ (failed, p'). IsBooted net (without_clients answers) (own_pop c) failed p')
                  (start net (without_clients answers) q))
              (sym same)
              (start-IsBooted net (without_clients answers) (own_pop c) (own_pop-IsPlaced c)))
            λ (failed, p') b. returned (after_pop-IsServed answers c fresh failed p' b))

as_standalone-last :
    (opts : List (ConsumerConfig → ConsumerConfig)) (cfg : ConsumerConfig)
    → (apply_all (opts ++ as_standalone ∷ []) cfg).standalone_consumer ≡ true
unfolding apply_all
as_standalone-last [] cfg = refl
as_standalone-last (opt ∷ rest) cfg = as_standalone-last rest (opt cfg)

-- With any options, and when the libraries have a logger and a configuration to give,
-- MustNewStandaloneConsumer and then Start return with `ready` closed; all of the consumer's own
-- node runs and its worker turns first to a url whose host and port are the address of the server
-- of the manager of that node, or the node did not start, for one of the causes of start-IsBooted,
-- and there is no worker.
pub must_new_standalone_consumer-IsServed :
    {U : Type 0} (net : Urls U) (answers : Answers) (id name stream_name efo_consumer_arn : String)
    (opts : List (ConsumerConfig → ConsumerConfig))
    → answers.production_logger ≡ true
    → answers.loaded ≡ true
    → Returns (IsServed net answers) (
        must_new_standalone_consumer answers id name stream_name efo_consumer_arn opts
        >>= start_consumer net answers)
unfolding must_new_standalone_consumer must_new_consumer
must_new_standalone_consumer-IsServed net answers id name stream_name efo_consumer_arn opts logs
      loads =
    Returns-then {Q = IsServed net answers}
      (passed {P = λ c. (c.worker ≡ none) × (c.cfg.standalone_consumer ≡ true)}
        (not answers.has_logger && not answers.production_logger) _
        (given_other answers.has_logger answers.production_logger logs)
        (passed (not answers.has_kinesis_client && not answers.loaded) _
          (given_other answers.has_kinesis_client answers.loaded loads)
          (returned (refl, as_standalone-last opts _))))
      λ c (fresh, alone). start_consumer-IsServed net answers c logs fresh alone
