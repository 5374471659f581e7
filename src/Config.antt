-- ===== src/Config.antt =====
-- consumer/pop_config.go: the configuration of a node, and the urls read off it. net/url is a
-- parameter.
pub mod Options
pub mod Server
pub mod Embedded
pub mod Cluster
use Prim.Native.String.{◌++◌ as append}
use libvegas.Base.{ℕ, zero, suc, ◌+◌, ◌*◌, List, [], ◌∷◌, Option, none, some, String, get_elem?}
use libvegas.Base.Run.{Run, ok, panic, ◌>>=◌, or_panic}
use libvegas.Base.Text.{decimal, split, join}

-- The fields but the clients of libraries. The int fields are not negative.
pub record PopConfig : Type 0 where
  pub name : String
  pub pop_id : ℕ
  pub stream_name : String
  pub pop_urls : String
  pub pop_listen_address : String
  pub etcd_peer_urls : String
  pub etcd_listen_peer_address : String
  pub etcd_client_urls : String
  pub etcd_listen_client_address : String
  pub leadership_ttl_seconds : ℕ
  pub healthcheck_timeout_milliseconds : ℕ
  pub worker_inactivity_timeout_milliseconds : ℕ
  pub shard_release_timeout_milliseconds : ℕ
  pub etcd_start_timeout_seconds : ℕ
  pub shard_discovery_interval_seconds : ℕ

abbrev pub milliseconds : ℕ → ℕ
milliseconds n = n * 1000000

unfoldable pub worker_inactivity_timeout : PopConfig → ℕ
worker_inactivity_timeout cfg = milliseconds cfg.worker_inactivity_timeout_milliseconds

unfoldable pub shard_release_timeout : PopConfig → ℕ
shard_release_timeout cfg = milliseconds cfg.shard_release_timeout_milliseconds

unfoldable pub healthcheck_timeout : PopConfig → ℕ
healthcheck_timeout cfg = milliseconds cfg.healthcheck_timeout_milliseconds

unfoldable pub shard_discovery_interval : PopConfig → ℕ
shard_discovery_interval cfg = cfg.shard_discovery_interval_seconds * 1000000000

unfoldable pub get_etcd_peer_name : PopConfig → String
get_etcd_peer_name cfg = append cfg.name (append "-" (decimal cfg.pop_id))

-- net/url
pub record Urls (U : Type 0) : Type 0 where
  pub parse : String → Option U
  pub scheme : U → String
  pub port : U → String
  pub hostname : U → String

-- `urls[id-1]`
unfoldable pub url_at : ℕ → List String → Run String
url_at zero urls = panic
url_at (suc i) urls = or_panic (get_elem? urls i)

unfoldable pub get_client_connection_urls : PopConfig → List String
get_client_connection_urls cfg = split cfg.etcd_client_urls

unfoldable pub get_current_node_client_connection_url : PopConfig → Run String
unfolding get_client_connection_urls url_at
get_current_node_client_connection_url cfg = url_at cfg.pop_id (get_client_connection_urls cfg)

-- `fmt.Sprintf("%s-%d=%s", cfg.Name, i+1, p)`, for one peer after another from `i` on
unfoldable pub cluster_entries : String → ℕ → List String → List String
cluster_entries name i [] = []
cluster_entries name i (p ∷ rest) =
    append (append name (append "-" (decimal (i + 1)))) (append "=" p)
    ∷ cluster_entries name (i + 1) rest

unfoldable pub get_initial_cluster : PopConfig → String
unfolding cluster_entries
get_initial_cluster cfg = join (cluster_entries cfg.name 0 (split cfg.etcd_peer_urls))

module _ {U : Type 0} (net : Urls U) where
  -- The url of this node, or the error of its parser.
  unfoldable pub advertised : PopConfig → String → Run (Option (List U))
  unfolding url_at
  advertised cfg urls = do
    url ← url_at cfg.pop_id (split urls)
    ok (elim (net.parse url) [ none ↦ none | some u ↦ some (u ∷ []) ])

  -- The scheme and the port of the url of this node, at another address.
  unfoldable pub listened : PopConfig → String → String → Run (Option (List U))
  unfolding url_at
  listened cfg urls address = do
    url ← url_at cfg.pop_id (split urls)
    ok (elim (net.parse url) [
      | none ↦ none
      | some u ↦
          elim (net.parse
            (append (net.scheme u) (append "://" (append address (append ":" (net.port u)))))) [
              | none ↦ none
              | some v ↦ some (v ∷ [])
            ]
    ])

  unfoldable pub get_listen_peer_urls : PopConfig → Run (Option (List U))
  unfolding listened
  get_listen_peer_urls cfg = listened cfg cfg.etcd_peer_urls cfg.etcd_listen_peer_address

  unfoldable pub get_advertise_peer_urls : PopConfig → Run (Option (List U))
  unfolding advertised
  get_advertise_peer_urls cfg = advertised cfg cfg.etcd_peer_urls

  unfoldable pub get_listen_client_urls : PopConfig → Run (Option (List U))
  unfolding listened
  get_listen_client_urls cfg = listened cfg cfg.etcd_client_urls cfg.etcd_listen_client_address

  unfoldable pub get_advertise_client_urls : PopConfig → Run (Option (List U))
  unfolding advertised
  get_advertise_client_urls cfg = advertised cfg cfg.etcd_client_urls

  unfoldable pub get_manager_listen_url : PopConfig → Run (Option U)
  unfolding url_at
  get_manager_listen_url cfg = do url ← url_at cfg.pop_id (split cfg.pop_urls); ok (net.parse url)
