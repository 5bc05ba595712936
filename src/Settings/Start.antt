-- ===== src/Settings/Start.antt =====
-- cmd/ingestion/main.go, run, up to the two servers: the settings are read and checked, and the parts
-- of the service are built from them, in the order of the code. `publisher_made` is whether the Kafka
-- client of kafka.NewPublisher is made, and `metrics_made` whether the registry takes the metrics of
-- ingestion.NewMetrics.
pub mod Ready
use go_transaction_control_p.Api.Server.{ServerError, new_server}
use go_transaction_control_p.Ledger.Storage.{map_error}
use go_transaction_control_p.Ingestion.Backpressure.{BackpressureError, new_limiter, Limiter}
use go_transaction_control_p.Prelude.Int.{ℤ}
use go_transaction_control_p.Settings.{
  BreakerConfig, backpressure_config_from_env, ingestion_breaker_config, rate_limit_config_from_env,
  api_keys_from_env, SettingError,
}
use go_transaction_control_p.Ingestion.Chain.{Metrics}
use go_transaction_control_p.Ingestion.Chain.{Shared}
use go_transaction_control_p.Api.RateLimiter.{RateLimitConfig, RateLimiter, Floats}
use go_transaction_control_p.Breaker.{ConfigError, Machine, new}
use go_transaction_control_p.Ingestion.Publisher.Config.{config_from_env, Config}
use go_transaction_control_p.Prelude.{
  not, fail_if, ◌>>◌, ◌>>=◌, Result, Bool, Option, List, Bytes, true, false, ok, err, none, some,
  [], ◌∷◌,
}

-- The settings of the Kafka publisher.
abbrev pub KafkaConfig : Type 0
KafkaConfig = Config

pub data StartError : Type 0 where
  setting_error : SettingError → StartError
  kafka_error publisher_error metrics_error : StartError
  breaker_error : ConfigError → StartError
  limiter_error : BackpressureError → StartError
  server_error : ServerError → StartError

-- What run has built when both servers start; each has the keys and a limiter of its own.
pub record Service (F : Type 0) : Type 0 where
  pub kafka : KafkaConfig
  pub shared : Shared
  pub http : List Bytes × RateLimiter F
  pub grpc : List Bytes × RateLimiter F

abbrev new_metrics_values : Metrics
new_metrics_values = record {
  successes = 0;
  failures = 0;
  success_latencies = [];
  failure_latencies = [];
  breaker_state = 0;
}

abbrev pub service_of :
    {F : Type 0}
    → KafkaConfig
    → Machine
    → Limiter
    → List Bytes × RateLimiter F
    → List Bytes × RateLimiter F
    → Service F
service_of kafka machine limiter http grpc = record {
  kafka = kafka;
  shared = record { machine = machine; limiter = limiter; metrics = new_metrics_values };
  http = http;
  grpc = grpc;
}

module _ {F : Type 0} (floats : Floats F) (parse_float : Bytes → Option F)
    (parse_duration : Bytes → Option ℤ) (publisher_made : KafkaConfig → Bool)
    (metrics_made : Bool) where
  -- The servers of run, once the publishers are built.
  unfoldable pub start_servers :
      List Bytes → RateLimitConfig F → Config → Machine → Limiter → Result StartError (Service F)
  start_servers api_keys rate_limit kafka machine limiter = do
    http ← map_error server_error (new_server floats api_keys rate_limit)
    grpc ← map_error server_error (new_server floats api_keys rate_limit)
    ok (service_of kafka machine limiter http grpc)

  -- run behind the publisher's breaker; then, going back, from one early return to the next.
  unfoldable pub with_breaker :
      (Bytes → Bytes)
      → List Bytes
      → RateLimitConfig F
      → KafkaConfig
      → Machine
      → Result StartError (Service F)
  unfolding start_servers
  with_breaker env api_keys rate_limit kafka machine = do
    max_in_flight ← map_error setting_error (backpressure_config_from_env env)
    limiter ← map_error limiter_error (new_limiter max_in_flight)
    fail_if (not metrics_made) metrics_error
    start_servers api_keys rate_limit kafka machine limiter

  unfoldable pub with_breaker_config :
      (Bytes → Bytes)
      → List Bytes
      → RateLimitConfig F
      → KafkaConfig
      → BreakerConfig
      → Result StartError (Service F)
  unfolding with_breaker
  with_breaker_config env api_keys rate_limit kafka config =
      map_error breaker_error (new config) >>= with_breaker env api_keys rate_limit kafka

  unfoldable pub with_kafka :
      (Bytes → Bytes) → List Bytes → RateLimitConfig F → KafkaConfig → Result StartError (Service F)
  unfolding with_breaker_config
  with_kafka env api_keys rate_limit kafka =
      fail_if (not (publisher_made kafka)) publisher_error
      >> (map_error setting_error (ingestion_breaker_config parse_duration env)
          >>= with_breaker_config env api_keys rate_limit kafka)

  unfoldable pub with_keys : (Bytes → Bytes) → List Bytes → Result StartError (Service F)
  unfolding with_kafka
  with_keys env api_keys = do
    rate_limit ← map_error setting_error (rate_limit_config_from_env floats parse_float env)
    kafka ← map_error (λ e. kafka_error) (config_from_env parse_duration env)
    with_kafka env api_keys rate_limit kafka

  -- run up to the start of the servers.
  unfoldable pub start_ingestion : (Bytes → Bytes) → Result StartError (Service F)
  unfolding with_keys
  start_ingestion env = map_error setting_error (api_keys_from_env env) >>= with_keys env
