-- ===== src/Operator/Queries.antt =====
-- operator/internal/promquery/client.go: the queries of the operator. `Samples` are the operations of
-- float64 that the code uses on a value of a series; `ask` is the query API with the bound that the
-- call gets, over a world of its own.
pub mod Escape
use go_transaction_control_p.Ledger.Amount.{is_empty}
use go_transaction_control_p.Prelude.Int.{negsuc, leb_ℤ, pos, ℤ}
use go_transaction_control_p.Prelude.{
  ◌-◌, ◌^◌, ◌||◌, ◌>>=◌, ◌==◌, ◌++◌, if◌then◌else◌, codes, Bool, ℕ, Result, Option, List, Bytes,
  true, false, ok, err, none, some, [], ◌∷◌,
}

pub record Config : Type 0 where
  pub address : Bytes
  pub timeout : ℤ

abbrev pub default_address : Bytes
default_address = codes "http://prometheus:9090"

-- Five seconds, in nanoseconds.
abbrev pub default_timeout : ℤ
default_timeout = pos 5000000000

keep_parsed : Option ℤ → ℤ → ℤ
keep_parsed none current = current
keep_parsed (some timeout) current = timeout

-- NewConfigFromEnv; `env` is os.Getenv and `parse_duration` is time.ParseDuration.
unfoldable pub new_config_from_env : (Bytes → Option ℤ) → (Bytes → Bytes) → Config
unfolding keep_parsed
new_config_from_env parse_duration env =
    let address = env (codes "PROMETHEUS_ADDR") in
    let timeout = env (codes "PROMETHEUS_QUERY_TIMEOUT") in
    record {
      address = if is_empty address then default_address else address;
      timeout =
          if is_empty timeout
          then default_timeout
          else keep_parsed (parse_duration timeout) default_timeout;
    }

-- The timeout of NewClient.
unfoldable pub client_timeout : Config → ℤ
client_timeout cfg = if leb_ℤ cfg.timeout (pos 0) then default_timeout else cfg.timeout

-- strings.ReplaceAll of one byte.
unfoldable pub replace_all : ℕ → Bytes → Bytes → Bytes
replace_all old new [] = []
replace_all old new (c ∷ s) =
    let rest = replace_all old new s in if c == old then new ++ rest else c ∷ rest

unfoldable pub escape_prom_ql_string : Bytes → Bytes
unfolding replace_all
escape_prom_ql_string value =
    replace_all b'"' (b'\\' ∷ b'"' ∷ []) (replace_all b'\\' (b'\\' ∷ b'\\' ∷ []) value)

pub record TenantLabel : Type 0 where
  pub name : Bytes
  pub value : Bytes

unfoldable pub matcher : TenantLabel → Bytes
matcher label =
    escape_prom_ql_string label.name
    ++ (b'=' ∷ b'"' ∷ escape_prom_ql_string label.value ++ b'"' ∷ [])

abbrev series_query : Bytes → TenantLabel → Bytes
series_query metric label = metric ++ b'{' ∷ matcher label ++ b'}' ∷ []

unfoldable pub kafka_lag_query : TenantLabel → Bytes
kafka_lag_query = series_query (codes "processor_kafka_consumer_lag_messages")

unfoldable pub p99_query : TenantLabel → Bytes
p99_query label =
    codes "histogram_quantile(0.99, sum(rate("
    ++ series_query (codes "processor_transaction_duration_seconds_bucket") label
    ++ codes "[5m])) by (le))"

unfoldable pub partition_count_query : TenantLabel → Bytes
partition_count_query = series_query (codes "ingestion_kafka_tenant_partition_count")

unfoldable pub partition_start_query : TenantLabel → Bytes
partition_start_query = series_query (codes "ingestion_kafka_tenant_partition_start_count")

pub data QueryError : Type 0 where
  query_failed unexpected_type no_series several_series out_of_range : QueryError

-- What the query API answers: an error, a vector with the values of its series, another type.
pub data QueryResult (F : Type 0) : Type 0 where
  failed_query other_type : QueryResult F
  vector : List F → QueryResult F

pub record Samples (F : Type 0) : Type 0 where
  pub of_int : ℤ → F
  pub mul : F → F → F
  pub round : F → F
  pub greater : F → F → Bool
  pub less : F → F → Bool
  pub to_int : F → ℤ

unfoldable pub single_value : {F : Type 0} → QueryResult F → Result QueryError F
single_value failed_query = err query_failed
single_value other_type = err unexpected_type
single_value (vector []) = err no_series
single_value (vector (value ∷ [])) = ok value
single_value (vector (value ∷ next ∷ values)) = err several_series

module _ {F W : Type 0} (samples : Samples F) (timeout : ℤ)
    (ask : W → Option ℤ → Bytes → W × QueryResult F) where
  -- queryScalar; the client's timeout bounds a call whose context has no deadline.
  unfoldable pub query_scalar : W → Bool → Bytes → W × Result QueryError F
  unfolding single_value
  query_scalar w has_deadline query =
      let (w', answer) = ask w (if has_deadline then none else some timeout) query in
      (w', single_value answer)

  -- math.Round with the test of the range, as an integer.
  unfoldable pub in_range_or : ℤ → ℤ → F → Result QueryError ℤ
  in_range_or lowest highest value =
      let rounded = samples.round value in
      if samples.greater rounded (samples.of_int highest)
        || samples.less rounded (samples.of_int lowest)
      then err out_of_range
      else ok (samples.to_int rounded)

  unfoldable pub observed_kafka_lag : W → Bool → TenantLabel → W × Result QueryError ℤ
  observed_kafka_lag w has_deadline label =
      let (w', value) = query_scalar w has_deadline (kafka_lag_query label) in
      (w', value >>= in_range_or (negsuc (2 ^ 63 - 1)) (pos (2 ^ 63 - 1)))

  -- Seconds to milliseconds.
  unfoldable pub observed_p99_ms : W → Bool → TenantLabel → W × Result QueryError ℤ
  observed_p99_ms w has_deadline label =
      let (w', value) = query_scalar w has_deadline (p99_query label) in
      (
        w',
        value >>= λ seconds.
            in_range_or (negsuc (2 ^ 31 - 1)) (pos (2 ^ 31 - 1))
              (samples.mul seconds (samples.of_int (pos 1000))),
      )

  unfoldable pub observed_partition_count : W → Bool → TenantLabel → W × Result QueryError ℤ
  observed_partition_count w has_deadline label =
      let (w', value) = query_scalar w has_deadline (partition_count_query label) in
      (w', value >>= in_range_or (negsuc (2 ^ 31 - 1)) (pos (2 ^ 31 - 1)))

  unfoldable pub observed_partition_start : W → Bool → TenantLabel → W × Result QueryError ℤ
  observed_partition_start w has_deadline label =
      let (w', value) = query_scalar w has_deadline (partition_start_query label) in
      (w', value >>= in_range_or (negsuc (2 ^ 31 - 1)) (pos (2 ^ 31 - 1)))
