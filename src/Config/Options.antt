-- ===== src/Config/Options.antt =====
-- consumer/pop_config.go and consumer/pop_service.go: the options of a node and its defaults.
use libvegas.Base.{ℕ, List, [], ◌∷◌, String}
use libvegas.Config.{PopConfig}

abbrev pub with_pop_listen_address : String → PopConfig → PopConfig
with_pop_listen_address addr cfg = record cfg { pop_listen_address = addr }

abbrev pub with_etcd_listen_peer_address : String → PopConfig → PopConfig
with_etcd_listen_peer_address addr cfg = record cfg { etcd_listen_peer_address = addr }

abbrev pub with_etcd_listen_client_address : String → PopConfig → PopConfig
with_etcd_listen_client_address addr cfg = record cfg { etcd_listen_client_address = addr }

abbrev pub with_manager_pop_urls : String → PopConfig → PopConfig
with_manager_pop_urls urls cfg = record cfg { pop_urls = urls }

abbrev pub with_etcd_peer_urls : String → PopConfig → PopConfig
with_etcd_peer_urls urls cfg = record cfg { etcd_peer_urls = urls }

abbrev pub with_etcd_client_urls : String → PopConfig → PopConfig
with_etcd_client_urls urls cfg = record cfg { etcd_client_urls = urls }

abbrev pub with_leadership_ttl_seconds : ℕ → PopConfig → PopConfig
with_leadership_ttl_seconds seconds cfg = record cfg { leadership_ttl_seconds = seconds }

abbrev pub with_id : ℕ → PopConfig → PopConfig
with_id id cfg = record cfg { pop_id = id }

abbrev pub with_health_check_timeout_milliseconds : ℕ → PopConfig → PopConfig
with_health_check_timeout_milliseconds timeout cfg = record cfg {
  healthcheck_timeout_milliseconds = timeout;
}

abbrev pub with_worker_inactivity_timeout_milliseconds : ℕ → PopConfig → PopConfig
with_worker_inactivity_timeout_milliseconds timeout cfg = record cfg {
  worker_inactivity_timeout_milliseconds = timeout;
}

abbrev pub with_etcd_start_timeout_seconds : ℕ → PopConfig → PopConfig
with_etcd_start_timeout_seconds timeout cfg = record cfg { etcd_start_timeout_seconds = timeout }

abbrev pub with_shard_discovery_interval_seconds : ℕ → PopConfig → PopConfig
with_shard_discovery_interval_seconds seconds cfg = record cfg {
  shard_discovery_interval_seconds = seconds;
}

-- `opt(&cfg)`, one after another
unfoldable pub apply_options : List (PopConfig → PopConfig) → PopConfig → PopConfig
apply_options [] cfg = cfg
apply_options (opt ∷ rest) cfg = apply_options rest (opt cfg)

-- The configuration that NewPopService makes.
unfoldable pub new_pop_config : String → String → List (PopConfig → PopConfig) → PopConfig
unfolding apply_options
new_pop_config name stream_name opts = apply_options opts (record {
  pop_id = 1;
  name = name;
  stream_name = stream_name;
  pop_urls = "http://localhost:13001";
  pop_listen_address = "localhost";
  etcd_peer_urls = "http://localhost:12001";
  etcd_listen_peer_address = "localhost";
  etcd_client_urls = "http://localhost:11001";
  etcd_listen_client_address = "localhost";
  leadership_ttl_seconds = 60;
  healthcheck_timeout_milliseconds = 1000;
  worker_inactivity_timeout_milliseconds = 5000;
  shard_release_timeout_milliseconds = 3000;
  etcd_start_timeout_seconds = 30;
  shard_discovery_interval_seconds = 0;
})
