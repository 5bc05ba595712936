-- ===== src/Settings.antt =====
-- cmd/ingestion/main.go and cmd/processor/main.go: the settings that the programs read from their
-- environment. `env` is os.Getenv, `parse_duration` is time.ParseDuration and `parse_float` is
-- strconv.ParseFloat.
pub mod Keys
pub mod Start
mod Tests
use go_transaction_control_p.Prelude.Spaces.{trim_space, split}
use go_transaction_control_p.Ledger.Amount.{parse_uint, is_empty, atoi}
use go_transaction_control_p.Prelude.Int.{pos, ℤ}
use go_transaction_control_p.Api.RateLimiter.{RateLimitConfig, Floats}
use go_transaction_control_p.Breaker.{Config}
use go_transaction_control_p.Prelude.{
  ◌-◌, ◌^◌, ◌>>=◌, or_fail, ltb, ℕ, if◌then◌else◌, Result, codes, Option, List, Bytes, true, false,
  ok, err, none, some, [], ◌∷◌,
}

-- The settings of a breaker (internal/corebreaker/corebreaker.go).
abbrev pub BreakerConfig : Type 0
BreakerConfig = Config

pub data SettingError : Type 0 where
  no_variable no_key bad_rate bad_burst bad_threshold bad_duration bad_limit : SettingError

-- The loop over the pieces between commas: trimmed, without the empty ones.
unfoldable pub non_empty_pieces : List Bytes → List Bytes
non_empty_pieces [] = []
non_empty_pieces (piece ∷ pieces) =
    let rest = non_empty_pieces pieces in
    if is_empty (trim_space piece) then rest else trim_space piece ∷ rest

checked_keys : List Bytes → Result SettingError (List Bytes)
checked_keys [] = err no_key
checked_keys (key ∷ keys) = ok (key ∷ keys)

-- apiKeysFromEnv.
unfoldable pub api_keys_from_env : (Bytes → Bytes) → Result SettingError (List Bytes)
unfolding checked_keys non_empty_pieces
api_keys_from_env env =
    let raw = env (codes "INGESTION_API_KEYS") in
    if is_empty raw then err no_variable else checked_keys (non_empty_pieces (split b',' raw))

-- knownTenantsFromEnv, of the program's variable.
unfoldable pub known_tenants_from_env : Bytes → (Bytes → Bytes) → List Bytes
unfolding non_empty_pieces
known_tenants_from_env name env =
    let raw = env name in if is_empty raw then [] else non_empty_pieces (split b',' raw)

-- cmd/ingestion/main.go and cmd/processor/main.go.
unfoldable pub ingestion_known_tenants : (Bytes → Bytes) → List Bytes
ingestion_known_tenants = known_tenants_from_env (codes "INGESTION_KNOWN_TENANTS")

unfoldable pub processor_known_tenants : (Bytes → Bytes) → List Bytes
processor_known_tenants = known_tenants_from_env (codes "PROCESSOR_KNOWN_TENANTS")

-- A setting that keeps its default where its variable is empty or missing.
unfoldable pub setting :
    {A : Type 0} → (Bytes → Option A) → SettingError → Bytes → A → Result SettingError A
setting parse e [] current = ok current
setting parse e (c ∷ s) current = or_fail (parse (c ∷ s)) e

-- rateLimitConfigFromEnv.
unfoldable pub rate_limit_config_from_env :
    {F : Type 0}
    → Floats F
    → (Bytes → Option F)
    → (Bytes → Bytes)
    → Result SettingError (RateLimitConfig F)
unfolding setting
rate_limit_config_from_env floats parse_float env = do
  rate ←
      setting parse_float bad_rate (env (codes "INGESTION_RATE_LIMIT_RPS")) (floats.of_int (pos 50))
  burst ← setting atoi bad_burst (env (codes "INGESTION_RATE_LIMIT_BURST")) (pos 100)
  ok (record { requests_per_second = rate; burst = burst })

at_most_32 : Option ℕ → Option ℕ
at_most_32 none = none
at_most_32 (some n) = if ltb (2 ^ 32 - 1) n then none else some n

-- strconv.ParseUint at base 10 and 32 bits.
parse_uint32 : Bytes → Option ℕ
unfolding at_most_32
parse_uint32 s = at_most_32 (parse_uint s)

-- The variables of a program's breaker.
pub record BreakerVariables : Type 0 where
  pub failure_threshold : Bytes
  pub open_timeout : Bytes
  pub probe_timeout : Bytes

-- breakerConfigFromEnv, the same in both programs but for the variables.
unfoldable pub breaker_config_from_env :
    BreakerVariables → (Bytes → Option ℤ) → (Bytes → Bytes) → Result SettingError Config
unfolding setting parse_uint32
breaker_config_from_env names parse_duration env = do
  threshold ← setting parse_uint32 bad_threshold (env names.failure_threshold) 5
  open_timeout ← setting parse_duration bad_duration (env names.open_timeout) (pos 30000000000)
  probe_timeout ← setting parse_duration bad_duration (env names.probe_timeout) (pos 30000000000)
  ok (record {
    failure_threshold = threshold;
    open_timeout = open_timeout;
    probe_timeout = probe_timeout;
  })

unfoldable pub ingestion_breaker_config :
    (Bytes → Option ℤ) → (Bytes → Bytes) → Result SettingError Config
ingestion_breaker_config = breaker_config_from_env (record {
  failure_threshold = codes "INGESTION_BREAKER_FAILURE_THRESHOLD";
  open_timeout = codes "INGESTION_BREAKER_OPEN_TIMEOUT";
  probe_timeout = codes "INGESTION_BREAKER_PROBE_TIMEOUT";
})

unfoldable pub processor_breaker_config :
    (Bytes → Option ℤ) → (Bytes → Bytes) → Result SettingError Config
processor_breaker_config = breaker_config_from_env (record {
  failure_threshold = codes "PROCESSOR_BREAKER_FAILURE_THRESHOLD";
  open_timeout = codes "PROCESSOR_BREAKER_OPEN_TIMEOUT";
  probe_timeout = codes "PROCESSOR_BREAKER_PROBE_TIMEOUT";
})

-- backpressureConfigFromEnv.
unfoldable pub backpressure_config_from_env : (Bytes → Bytes) → Result SettingError ℤ
unfolding setting
backpressure_config_from_env env =
    setting atoi bad_limit (env (codes "INGESTION_BACKPRESSURE_MAX_INFLIGHT")) (pos 256)
