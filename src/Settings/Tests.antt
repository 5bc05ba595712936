-- ===== src/Settings/Tests.antt =====
-- An ingestion service that starts from a concrete environment (cmd/ingestion/main.go).
use go_transaction_control_p.Prelude.{
  Bytes, Bool, Option, true, none, eq_bytes, if◌then◌else◌, codes, ok, List, ℕ, ◌*◌, [], ◌∷◌, ◌≡◌,
  refl,
}
use go_transaction_control_p.Api.RateLimiter.{RateLimiter, new_rate_limiter}
use go_transaction_control_p.Api.RateLimiter.Bound.{fixed_point, unit_token}
use go_transaction_control_p.Api.Server.{new_server, keys_checked, limiter_for}
use go_transaction_control_p.Api.Auth.{new_api_key_authenticator}
use go_transaction_control_p.Breaker.{closed, new, validate}
use go_transaction_control_p.Ingestion.Backpressure.{new_limiter, validate_limit}
use go_transaction_control_p.Ingestion.Publisher.Config.{
  local_config, config_from_env, override, override_duration, validate_config,
}
use go_transaction_control_p.Ledger.Storage.{map_error}
use go_transaction_control_p.Prelude.Spaces.{trim_space, split, trim_left, trim_right, is_blank}
use go_transaction_control_p.Prelude.Int.{ℤ, pos}
use go_transaction_control_p.Settings.{
  api_keys_from_env, non_empty_pieces, setting, rate_limit_config_from_env, breaker_config_from_env,
  ingestion_breaker_config, backpressure_config_from_env,
}
use go_transaction_control_p.Settings.Start.{
  start_ingestion, with_keys, with_kafka, with_breaker_config, with_breaker, start_servers, Service,
  KafkaConfig,
}
use go_transaction_control_p.Settings.Start.Ready.{start_ingestion-IsReady, IsReady}

abbrev one_key_env : Bytes → Bytes
one_key_env name = if eq_bytes name (codes "INGESTION_API_KEYS") then codes "k1, k2" else []

abbrev no_float : Bytes → Option ℕ
no_float s = none

abbrev no_duration : Bytes → Option ℤ
no_duration s = none

abbrev always_made : KafkaConfig → Bool
always_made cfg = true

abbrev server_of_two : List Bytes × RateLimiter ℕ
server_of_two = (
  codes "k1" ∷ codes "k2" ∷ [],
  record { rate = 50 * unit_token; burst = 100 * unit_token; shards = λ i. [] },
)

abbrev started : Service ℕ
started = record {
  kafka = local_config;
  shared = record {
    machine = record {
      config = record {
        failure_threshold = 5;
        open_timeout = pos 30000000000;
        probe_timeout = pos 30000000000;
      };
      state = closed;
      consecutive_failures = 0;
      opened_at = pos 0;
    };
    limiter = record { capacity = 256; slots = 0 };
    metrics = record {
      successes = 0;
      failures = 0;
      success_latencies = [];
      failure_latencies = [];
      breaker_state = 0;
    };
  };
  http = server_of_two;
  grpc = server_of_two;
}

is_started :
    start_ingestion fixed_point no_float no_duration always_made true one_key_env ≡ ok started
unfolding start_ingestion with_keys with_kafka with_breaker_config with_breaker start_servers
    map_error new_server keys_checked limiter_for new_rate_limiter new_api_key_authenticator new
    validate new_limiter validate_limit config_from_env override override_duration validate_config
    api_keys_from_env non_empty_pieces setting rate_limit_config_from_env breaker_config_from_env
    ingestion_breaker_config backpressure_config_from_env trim_space split trim_left trim_right
    is_blank eq_bytes
is_started = refl

start_ingestion-IsReady_example : IsReady started
start_ingestion-IsReady_example =
    start_ingestion-IsReady fixed_point no_float no_duration always_made true one_key_env started
      is_started
