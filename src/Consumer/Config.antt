-- ===== src/Consumer/Config.antt =====
-- internal/processor/kafka/consumer.go: the consumer's settings. An empty `map_path` stands for no
-- TenantPartitionSource; an int or a time.Duration is an integer.
use go_transaction_control_p.Prelude.Word.{wrap32}
use go_transaction_control_p.Ledger.Amount.{atoi}
use go_transaction_control_p.Prelude.Spaces.{trim_space, is_blank, split}
use go_transaction_control_p.Prelude.Int.{ltb_ℤ, pos, ℤ}
use go_transaction_control_p.Prelude.{
  ◌||◌, not, ◌&&◌, if◌then◌else◌, false, ◌>>=◌, true, or_fail, fail_if, [], ◌∷◌, ◌>>◌, ok, Option,
  Bool, codes, Result, List, Bytes,
}

pub record Config : Type 0 where
  pub brokers : List Bytes
  pub topic : Bytes
  pub group_id : Bytes
  pub dlq_topic : Bytes
  pub max_retries : ℤ
  pub manual_partitions : List ℤ
  pub tenant_id : Bytes
  pub map_path : Bytes
  pub reload_interval : ℤ
  pub max_poll_records : ℤ

pub data ConfigError : Type 0 where
  no_broker blank_broker blank_topic blank_group blank_dlq_topic negative_retries : ConfigError
  negative_poll_records source_without_tenant : ConfigError
  bad_number bad_partition negative_partition bad_duration : ConfigError

-- The loop over the fields of a list of partitions.
unfoldable pub parse_fields : List Bytes → Result ConfigError (List ℤ)
parse_fields [] = ok []
parse_fields (field ∷ fields) = do
  parsed ← or_fail (atoi (trim_space field)) bad_partition
  fail_if (ltb_ℤ parsed (pos 0)) negative_partition
  rest ← parse_fields fields
  ok (wrap32 parsed ∷ rest)

unfoldable pub parse_partition_list : Bytes → Result ConfigError (List ℤ)
unfolding parse_fields
parse_partition_list value = parse_fields (split b',' value)

check_brokers : List Bytes → Result ConfigError (Unit {0})
check_brokers [] = ok tt
check_brokers (broker ∷ brokers) =
    let rest = check_brokers brokers in fail_if (is_blank broker) blank_broker >> rest

abbrev pub is_nil {ℓ} : {A : Type ℓ} → List A → Bool
is_nil [] = true
is_nil (_ ∷ _) = false

unfoldable pub validate_config : Config → Result ConfigError (Unit {0})
unfolding check_brokers
validate_config cfg = do
  fail_if (is_nil cfg.brokers) no_broker
  check_brokers cfg.brokers
  fail_if (is_blank cfg.topic) blank_topic
  fail_if (is_nil cfg.manual_partitions && is_blank cfg.group_id) blank_group
  fail_if (is_blank cfg.dlq_topic) blank_dlq_topic
  fail_if (ltb_ℤ cfg.max_retries (pos 0)) negative_retries
  fail_if (ltb_ℤ cfg.max_poll_records (pos 0)) negative_poll_records
  fail_if (not (is_nil cfg.map_path) && (is_nil cfg.manual_partitions || is_blank cfg.tenant_id))
      source_without_tenant

abbrev pub local_config : Config
local_config = record {
  brokers = codes "localhost:9092" ∷ [];
  topic = codes "transaction-events";
  group_id = codes "processor";
  dlq_topic = codes "transaction-events-dlq";
  max_retries = pos 3;
  manual_partitions = [];
  tenant_id = [];
  map_path = [];
  reload_interval = pos 0;
  max_poll_records = pos 0;
}

unfoldable pub override : Bytes → Bytes → Bytes
override [] current = current
override (c ∷ s) current = c ∷ s

-- A setting that is parsed unless its variable is empty or not set.
unfoldable pub override_parsed :
    {A : Type 0} → (Bytes → Result ConfigError A) → Bytes → A → Result ConfigError A
override_parsed parse [] current = ok current
override_parsed parse (c ∷ s) current = parse (c ∷ s)

parse_number : Bytes → Result ConfigError ℤ
parse_number s = or_fail (atoi s) bad_number

-- ConfigFromEnv; `env` is os.Getenv and `parse_duration` is time.ParseDuration.
unfoldable pub config_from_env : (Bytes → Option ℤ) → (Bytes → Bytes) → Result ConfigError Config
unfolding override override_parsed parse_number
config_from_env parse_duration env = do
  let brokers = env (codes "KAFKA_BROKERS")
  retries ← override_parsed parse_number (env (codes "KAFKA_MAX_RETRIES")) local_config.max_retries
  partitions ←
      override_parsed parse_partition_list (env (codes "KAFKA_MANUAL_PARTITIONS"))
        local_config.manual_partitions
  interval ←
      override_parsed (λ s. or_fail (parse_duration s) bad_duration)
        (env (codes "TENANT_PARTITION_RELOAD_INTERVAL")) local_config.reload_interval
  poll_records ←
      override_parsed parse_number (env (codes "KAFKA_MAX_POLL_RECORDS"))
        local_config.max_poll_records
  let config = record local_config {
    brokers = if is_nil brokers then local_config.brokers else split b',' brokers;
    topic = override (env (codes "KAFKA_TOPIC")) local_config.topic;
    group_id = override (env (codes "KAFKA_CONSUMER_GROUP")) local_config.group_id;
    dlq_topic = override (env (codes "KAFKA_DLQ_TOPIC")) local_config.dlq_topic;
    max_retries = retries;
    manual_partitions = partitions;
    tenant_id = override (env (codes "TENANT_ID")) local_config.tenant_id;
    map_path = env (codes "TENANT_PARTITION_MAP_PATH");
    reload_interval = interval;
    max_poll_records = poll_records;
  }
  validate_config config >> ok config
