-- ===== src/Config/Server.antt =====
-- consumer/etcd_server.go: the configuration that Start gives to the embedded server.
use Prim.Native.String.{◌++◌ as append}
use libvegas.Base.{List, Option, none, some, String}
use libvegas.Base.Run.{Run, ok, ◌>>=◌}
use libvegas.Config.{
  PopConfig, Urls, get_etcd_peer_name, get_initial_cluster, get_listen_client_urls,
  get_advertise_client_urls, get_listen_peer_urls, get_advertise_peer_urls,
}

-- embed.Config, as far as it is set.
pub record EtcdConfig (U : Type 0) : Type 0 where
  pub name : String
  pub dir : String
  pub logger : String
  pub listen_client_urls : List U
  pub advertise_client_urls : List U
  pub listen_peer_urls : List U
  pub advertise_peer_urls : List U
  pub initial_cluster : String
  pub auto_compaction_retention : String
  pub auto_compaction_mode : String

-- `if err != nil { return err }`
abbrev pub or_error : {A B : Type 0} → Run (Option A) → (A → Run (Option B)) → Run (Option B)
or_error m next = m >>= λ r. elim r [ none ↦ ok none | some a ↦ next a ]

module _ {U : Type 0} (net : Urls U) where
  -- `none` is the error that Start returns.
  unfoldable pub etcd_config : PopConfig → Run (Option (EtcdConfig U))
  unfolding get_listen_client_urls get_advertise_client_urls get_listen_peer_urls
      get_advertise_peer_urls get_etcd_peer_name get_initial_cluster
  etcd_config cfg = or_error (get_listen_client_urls net cfg) λ listen_client.
      or_error (get_advertise_client_urls net cfg) λ advertise_client.
        or_error (get_listen_peer_urls net cfg) λ listen_peer.
          or_error (get_advertise_peer_urls net cfg) λ advertise_peer. ok (
            some (record {
              name = get_etcd_peer_name cfg;
              dir = append (get_etcd_peer_name cfg) ".etcd";
              logger = "zap";
              listen_client_urls = listen_client;
              advertise_client_urls = advertise_client;
              listen_peer_urls = listen_peer;
              advertise_peer_urls = advertise_peer;
              initial_cluster = get_initial_cluster cfg;
              auto_compaction_retention = "1000";
              auto_compaction_mode = "revision";
            }))
