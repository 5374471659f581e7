-- ===== src/Consumer.antt =====
-- consumer/consumer_config.go: the configuration of a consumer, and its options.
pub mod Starting
use libvegas.Base.{ℕ, ◌*◌, Bool, true, String}
use libvegas.Config.{milliseconds}

-- The fields but the clients of libraries and the callback. Durations are in nanoseconds, and int
-- fields are not negative.
pub record ConsumerConfig : Type 0 where
  pub id : String
  pub stream_name : String
  pub efo_consumer_arn : String
  pub name : String
  pub pop_urls : String
  pub healthcheck_timeout_milliseconds : ℕ
  pub worker_inactivity_timeout_milliseconds : ℕ
  pub checkpoint_interval_milliseconds : ℕ
  pub checkpoint_retry_interval_milliseconds : ℕ
  pub apply_request_timeout_milliseconds : ℕ
  pub checkpoint_request_timeout_milliseconds : ℕ
  pub standalone_consumer : Bool

abbrev pub checkpoint_interval : ConsumerConfig → ℕ
checkpoint_interval cfg = milliseconds cfg.checkpoint_interval_milliseconds

abbrev pub checkpoint_retry_interval : ConsumerConfig → ℕ
checkpoint_retry_interval cfg = milliseconds cfg.checkpoint_retry_interval_milliseconds

abbrev pub apply_request_timeout : ConsumerConfig → ℕ
apply_request_timeout cfg = milliseconds cfg.apply_request_timeout_milliseconds

abbrev pub checkpoint_request_timeout : ConsumerConfig → ℕ
checkpoint_request_timeout cfg = milliseconds cfg.checkpoint_request_timeout_milliseconds

abbrev pub worker_inactivity_timeout : ConsumerConfig → ℕ
worker_inactivity_timeout cfg = milliseconds cfg.worker_inactivity_timeout_milliseconds

abbrev pub healthcheck_timeout : ConsumerConfig → ℕ
healthcheck_timeout cfg = milliseconds cfg.healthcheck_timeout_milliseconds

abbrev pub with_pop_urls : String → ConsumerConfig → ConsumerConfig
with_pop_urls urls cfg = record cfg { pop_urls = urls }

abbrev pub with_checkpoint_interval : ℕ → ConsumerConfig → ConsumerConfig
with_checkpoint_interval t cfg = record cfg { checkpoint_interval_milliseconds = t }

abbrev pub as_standalone : ConsumerConfig → ConsumerConfig
as_standalone cfg = record cfg { standalone_consumer = true }

abbrev pub with_apply_request_timeout : ℕ → ConsumerConfig → ConsumerConfig
with_apply_request_timeout t cfg = record cfg { apply_request_timeout_milliseconds = t }

abbrev pub with_checkpoint_request_timeout : ℕ → ConsumerConfig → ConsumerConfig
with_checkpoint_request_timeout t cfg = record cfg { checkpoint_request_timeout_milliseconds = t }
