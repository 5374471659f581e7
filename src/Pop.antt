-- ===== src/Pop.antt =====
-- consumer/pop_service.go: the start of a node, and what its shutdown waits for. The answers of
-- the etcd client, of the AWS SDK and of net/url are arguments.
pub mod Booting
pub mod Command
use libvegas.Base.{
  Bool, true, false, not, ◌&&◌, List, [], ◌∷◌, ◌++◌, Option, none, some, String, if◌then◌else◌, map,
  string_eq,
}
use libvegas.Base.Run.{Run, ok, panic, ◌>>=◌}
use libvegas.Base.Map.{Map, insert}
use libvegas.Config.{PopConfig, Urls}
use libvegas.Manager.Routes.{start_server}
use libvegas.Config.Options.{new_pop_config}
use libvegas.Config.Server.{etcd_config}

-- What implements `runnable`.
pub data Component : Type 0 where
  shard_discovery manager etcd_server leader : Component

-- `components_done_notify` says what a shutdown waits for, and `running` what has been started;
-- `ready` is the channel, closed or not.
pub record PopService : Type 0 where
  pub cfg : PopConfig
  pub components_done_notify : Map String Component
  pub running : List Component
  pub ready : Bool

abbrev pub idle : PopConfig → PopService
idle cfg = record { cfg = cfg; components_done_notify = []; running = []; ready = false }

-- Do the options give a logger and a Kinesis client, and do zap.NewProduction, LoadDefaultConfig
-- and clientv3.New answer?
pub record Answers : Type 0 where
  pub has_logger : Bool
  pub has_kinesis_client : Bool
  pub production_logger : Bool
  pub loaded : Bool
  pub connected : Bool

-- Without options neither is given.
abbrev pub without_clients : Answers → Answers
without_clients answers = record answers { has_logger = false; has_kinesis_client = false }

-- The constructor panics without a logger.
unfoldable pub new_pop_service :
    Answers → String → String → List (PopConfig → PopConfig) → Run PopService
new_pop_service answers name stream_name opts =
    if not answers.has_logger && not answers.production_logger
    then panic
    else ok (idle (new_pop_config name stream_name opts))

-- Its `Start`, and the entry in the map.
unfoldable pub launch : String → Component → PopService → PopService
launch name c p = record p {
  components_done_notify = insert name c p.components_done_notify;
  running = p.running ++ c ∷ [];
}

-- `defer close(p.ready)`
abbrev pub returning : Bool → PopService → Run (Bool × PopService)
returning failed p = ok (failed, record p { ready = true })

module _ {U : Type 0} (net : Urls U) where
  unfoldable pub start_etcd_server : PopService → Run (Bool × PopService)
  unfolding launch
  start_etcd_server p = do
    configured ← etcd_config net p.cfg
    elim configured [
      | none ↦ returning true p
      | some _ ↦ returning false (launch "Leader" leader (launch "EtcdServer" etcd_server p))
    ]

  unfoldable pub start_manager : PopService → Run (Bool × PopService)
  unfolding launch start_etcd_server
  start_manager p = do
    server ← start_server net p.cfg
    elim server [
      | none ↦ returning true p
      | some _ ↦ start_etcd_server (launch "ManagerService" manager p)
    ]

  -- Whether it returns an error, and the node that it leaves.
  unfoldable pub start : Answers → PopService → Run (Bool × PopService)
  unfolding launch start_manager
  start answers p =
      if not answers.connected
      then returning true p
      else if not answers.has_kinesis_client && not answers.loaded
      then returning true p
      else start_manager (launch "ShardDiscoveryService" shard_discovery p)

-- The components that WaitForShutdownCompletion waits for, in an order that Go leaves open.
unfoldable pub awaited : (Map String Component → Map String Component) → PopService → List Component
awaited order p = map (λ (name, c). c) (order p.components_done_notify)
