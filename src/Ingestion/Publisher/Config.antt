-- ===== src/Ingestion/Publisher/Config.antt =====
-- internal/ingestion/kafka/publisher.go: the publisher's settings. A time.Duration is an integer;
-- an empty `map_path` stands for no TenantPartitionSource.
use go_transaction_control_p.Prelude.Spaces.{is_blank, split}
use go_transaction_control_p.Ledger.Amount.{is_empty}
use go_transaction_control_p.Ingestion.Partitioner.{TenantPartitionConfig}
use go_transaction_control_p.Prelude.Int.{ltb_ℤ, leb_ℤ, pos, ℤ}
use go_transaction_control_p.Prelude.{
  or_fail, false, fail_if, [], ◌∷◌, ◌>>◌, ◌>>=◌, true, ok, if◌then◌else◌, codes, Result, Option,
  Bool, Bytes, List,
}

pub record Config : Type 0 where
  pub brokers : List Bytes
  pub topic : Bytes
  pub request_timeout : ℤ
  pub linger : ℤ
  pub tenant_partitions : TenantPartitionConfig
  pub default_partitions_per_tenant : ℤ
  pub map_path : Bytes
  pub reload_interval : ℤ

pub data ConfigError : Type 0 where
  no_broker blank_broker blank_topic no_request_timeout negative_linger : ConfigError
  negative_default_partitions blank_tenant small_reservation bad_duration : ConfigError

-- The broker loop: at least one broker, none blank.
check_brokers : List Bytes → Result ConfigError (Unit {0})
check_brokers [] = ok tt
check_brokers (broker ∷ brokers) =
    let rest = check_brokers brokers in fail_if (is_blank broker) blank_broker >> rest

-- The loop over the reservations.
check_reservations : TenantPartitionConfig → Result ConfigError (Unit {0})
check_reservations [] = ok tt
check_reservations ((tenant, size) ∷ entries) =
    let rest = check_reservations entries in
    fail_if (is_blank tenant) blank_tenant
    >> (fail_if (ltb_ℤ size (pos 1)) small_reservation >> rest)

abbrev no_brokers : List Bytes → Bool
no_brokers [] = true
no_brokers (_ ∷ _) = false

unfoldable pub validate_config : Config → Result ConfigError (Unit {0})
unfolding check_brokers check_reservations
validate_config cfg = do
  fail_if (no_brokers cfg.brokers) no_broker
  check_brokers cfg.brokers
  fail_if (is_blank cfg.topic) blank_topic
  fail_if (leb_ℤ cfg.request_timeout (pos 0)) no_request_timeout
  fail_if (ltb_ℤ cfg.linger (pos 0)) negative_linger
  fail_if (ltb_ℤ cfg.default_partitions_per_tenant (pos 0)) negative_default_partitions
  check_reservations cfg.tenant_partitions

-- A setting that an environment variable overrides unless it is empty or not set.
unfoldable pub override : Bytes → Bytes → Bytes
override value current = if is_empty value then current else value

-- overrideDurationFromEnv; `parse_duration` is time.ParseDuration.
unfoldable pub override_duration : (Bytes → Option ℤ) → Bytes → ℤ → Result ConfigError ℤ
override_duration parse_duration [] current = ok current
override_duration parse_duration (c ∷ s) current = or_fail (parse_duration (c ∷ s)) bad_duration

-- LocalConfig; a millisecond is a million nanoseconds.
abbrev pub local_config : Config
local_config = record {
  brokers = codes "localhost:9092" ∷ [];
  topic = codes "transaction-events";
  request_timeout = pos 10000000000;
  linger = pos 5000000;
  tenant_partitions = [];
  default_partitions_per_tenant = pos 0;
  map_path = [];
  reload_interval = pos 0;
}

-- ConfigFromEnv; `env` is os.Getenv.
unfoldable pub config_from_env : (Bytes → Option ℤ) → (Bytes → Bytes) → Result ConfigError Config
unfolding override override_duration
config_from_env parse_duration env = do
  let brokers = env (codes "KAFKA_BROKERS")
  request_timeout ←
      override_duration parse_duration (env (codes "KAFKA_REQUEST_TIMEOUT"))
        local_config.request_timeout
  linger ← override_duration parse_duration (env (codes "KAFKA_LINGER")) local_config.linger
  interval ←
      override_duration parse_duration (env (codes "TENANT_PARTITION_RELOAD_INTERVAL"))
        local_config.reload_interval
  let config = record local_config {
    brokers = if is_empty brokers then local_config.brokers else split b',' brokers;
    topic = override (env (codes "KAFKA_TOPIC")) local_config.topic;
    request_timeout = request_timeout;
    linger = linger;
    map_path = env (codes "TENANT_PARTITION_MAP_PATH");
    reload_interval = interval;
  }
  validate_config config >> ok config
