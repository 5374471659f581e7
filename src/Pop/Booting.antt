-- ===== src/Pop/Booting.antt =====
-- The start of a node: what is started is what a shutdown waits for.
use Prim.Native.String.{◌++◌ as append}
use libvegas.Base.{
  ◌≤◌, ◌<◌, ◌≡◌, ◌≢◌, refl, sym, Bool, true, false, not, ◌&&◌, List, [], ◌∷◌, Option, none, some,
  String, if◌then◌else◌, map, string_eq, length, ◌⊎◌, inl, inr,
}
use mathlib.Core.Logic.Or
use mathlib.Core.List.Perm
use mathlib.Core.List.{Perm, Mem, mem-cons, not-mem-nil}
use libvegas.Base.Run.{Run, ok, Returns, returned, Returns-then}
use libvegas.Base.Partial.{any-Only, Returns-Only_both}
use libvegas.Base.Map.{Map, insert}
use libvegas.Base.Text.{split}
use libvegas.Config.{PopConfig, Urls, get_manager_listen_url}
use libvegas.Config.Server.{EtcdConfig, etcd_config}
use libvegas.Config.Cluster.{url_at-Returns, etcd_config_lem}
use libvegas.Manager.Routes.{HttpServer, routes, server_at, start_server}
use libvegas.Pop.{
  Component, shard_discovery, manager, etcd_server, leader, PopService, Answers, idle, awaited,
  launch, returning, start_etcd_server, start_manager, start,
}

-- The id of the node has a url for its manager, for its peers and for its clients.
pub record IsPlaced (cfg : PopConfig) : Type 0 where
  pub low : 0 < cfg.pop_id
  pub pops : cfg.pop_id ≤ length (split cfg.pop_urls)
  pub peers : cfg.pop_id ≤ length (split cfg.etcd_peer_urls)
  pub clients : cfg.pop_id ≤ length (split cfg.etcd_client_urls)

either-Returns :
    {A : Type 0} {P : A → Type 0} (b : Bool) (x y : Run A)
    → (b ≡ true → Returns P x)
    → (b ≡ false → Returns P y)
    → Returns P (if b then x else y)
either-Returns true x y h k = h refl
either-Returns false x y h k = k refl

none_true : (a : Bool) → not a ≡ true → a ≡ false
none_true true h = absurd (cc h)
none_true false h = refl

neither_true : (a b : Bool) → (not a && not b) ≡ true → (a ≡ false) × (b ≡ false)
neither_true true b h = absurd (cc h)
neither_true false b h = (refl, none_true b h)

apart_from_leader :
    (c : Component) (rest : List Component)
    → c ≢ leader
    → ¬ Mem leader rest
    → ¬ Mem leader (c ∷ rest)
apart_from_leader c rest h k m = Or.elim (hlevel) (mem-cons.0 m) (λ e. h (sym e)) k

-- What keeps a node from its start: the etcd client or the AWS SDK, or a url of the node that does
-- not parse, of its manager or of its embedded server.
abbrev pub Excused : {U : Type 0} → Urls U → Answers → PopConfig → Type 0
Excused net answers cfg =
    (answers.connected ≡ false)
    ⊎ (((answers.has_kinesis_client ≡ false) × (answers.loaded ≡ false))
        ⊎ ((get_manager_listen_url net cfg ≡ ok none) ⊎ (etcd_config net cfg ≡ ok none)))

module _ {U : Type 0} (net : Urls U) (answers : Answers) (cfg : PopConfig) where
  -- The server of the manager is at the host and the port of the url of the node, with its routes.
  abbrev pub IsListening : Type 0
  IsListening =
      (u : U) × (server : HttpServer) × (get_manager_listen_url net cfg ≡ ok (some u))
      × (start_server net cfg ≡ ok (some server))
      × (server.addr ≡ append (net.hostname u) (append ":" (net.port u)))
      × (server.handlers ≡ routes)

  -- A node that returned from its start. `failed` says whether with an error.
  pub record IsBooted (failed : Bool) (p : PopService) : Type 0 where
    pub same : p.cfg ≡ cfg
    pub closed : p.ready ≡ true
    pub waits :
        (order : Map String Component → Map String Component)
        → ((m : Map String Component) → Perm (order m) m)
        → Perm (awaited order p) p.running
    pub all_started :
        failed ≡ false → p.running ≡ shard_discovery ∷ manager ∷ etcd_server ∷ leader ∷ []
    pub no_election : failed ≡ true → ¬ Mem leader p.running
    pub listens : failed ≡ false → IsListening
    pub excused : failed ≡ true → Excused net answers cfg

  failed-IsBooted :
      (components : Map String Component)
      → ¬ Mem leader (map (λ (n, c). c) components)
      → Excused net answers cfg
      → IsBooted true (record {
        cfg = cfg;
        components_done_notify = components;
        running = map (λ (n, c). c) components;
        ready = true;
      })
  unfolding awaited
  failed-IsBooted components missing excuse = record {
    same = refl;
    closed = refl;
    waits = λ order visits. Perm.map _ (visits components);
    all_started = λ e. absurd (cc e);
    no_election = λ _. missing;
    listens = λ e. absurd (cc e);
    excused = λ _. excuse;
  }

  discovered : ¬ Mem leader (shard_discovery ∷ [])
  discovered = apart_from_leader shard_discovery [] (λ e. cc e) not-mem-nil

  managed : ¬ Mem leader (shard_discovery ∷ manager ∷ [])
  managed =
      apart_from_leader shard_discovery _ (λ e. cc e)
        (apart_from_leader manager [] (λ e. cc e) not-mem-nil)

  etcd-IsBooted :
      IsListening
      → (configured : Option (EtcdConfig U)) → etcd_config net cfg ≡ ok configured
      → Returns
          (λ (failed, p). IsBooted failed p)
          (let p =
              launch "ManagerService" manager
                (launch "ShardDiscoveryService" shard_discovery (idle cfg)) in
            elim configured [
              | none ↦ returning true p
              | some _ ↦
                  returning false (launch "Leader" leader (launch "EtcdServer" etcd_server p))
            ])
  unfolding launch insert awaited
  etcd-IsBooted l none garbled = returned (failed-IsBooted _ managed (inr (inr (inr garbled))))
  etcd-IsBooted l (some c) h = returned (record {
    same = refl;
    closed = refl;
    waits = λ order visits. Perm.map _ (visits _);
    all_started = λ _. refl;
    no_election = λ e. absurd (cc e);
    listens = λ _. l;
    excused = λ e. absurd (cc e);
  })

  -- What the start of the manager's server comes to.
  abbrev Found : Option HttpServer → Type 0
  Found none = get_manager_listen_url net cfg ≡ ok none
  Found (some s) = IsListening

  url-Found :
      (o : Option U)
      → get_manager_listen_url net cfg ≡ ok o
      → Found (elim o [ none ↦ none | some u ↦ some (server_at net u) ])
  unfolding start_server
  url-Found none h = h
  url-Found (some u) h = (u, server_at net u, h, rw (h, start_server) refl, refl, refl)

  url-Returns : IsPlaced cfg → Returns (λ o. Unit {0}) (get_manager_listen_url net cfg)
  unfolding get_manager_listen_url
  url-Returns placed =
      Returns-then (url_at-Returns cfg.pop_id (split cfg.pop_urls) placed.low placed.pops)
        λ url _. returned tt

  start_server-Found : IsPlaced cfg → Returns Found (start_server net cfg)
  unfolding start_server
  start_server-Found placed =
      Returns-then
        (Returns-Only_both (url-Returns placed) (any-Only (get_manager_listen_url net cfg)))
        λ o (_, h). returned (url-Found o h)

  manager-IsBooted :
      (o : Option HttpServer)
      → IsPlaced cfg
      → Found o
      → Returns
          (λ (failed, p). IsBooted failed p)
          (let p = launch "ShardDiscoveryService" shard_discovery (idle cfg) in
            elim o [
              | none ↦ returning true p
              | some _ ↦ start_etcd_server net (launch "ManagerService" manager p)
            ])
  unfolding launch insert start_etcd_server
  manager-IsBooted none placed garbled =
      returned (failed-IsBooted _ discovered (inr (inr (inl garbled))))
  manager-IsBooted (some s) placed l =
      Returns-then
        (Returns-Only_both (etcd_config_lem net cfg placed.low placed.peers placed.clients)
          (any-Only (etcd_config net cfg)))
        λ configured (_, h). etcd-IsBooted l configured h

  pub start-IsBooted :
      IsPlaced cfg → Returns (λ (failed, p). IsBooted failed p) (start net answers (idle cfg))
  unfolding start start_manager
  start-IsBooted placed =
      either-Returns (not answers.connected) _ _
        (λ e. returned (failed-IsBooted [] not-mem-nil (inl (none_true answers.connected e))))
        λ _.
          either-Returns (not answers.has_kinesis_client && not answers.loaded) _ _
            (λ e. returned (
              failed-IsBooted [] not-mem-nil
                (inr (inl (neither_true answers.has_kinesis_client answers.loaded e)))))
            λ _. Returns-then (start_server-Found placed) λ o found. manager-IsBooted o placed found
