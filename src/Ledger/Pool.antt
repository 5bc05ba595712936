-- ===== src/Ledger/Pool.antt =====
-- internal/ledger/storage/pool.go: the settings of the connection pool. A time.Duration is a number of
-- nanoseconds; `parse_duration` is time.ParseDuration.
use go_transaction_control_p.Ledger.Amount.{atoi, is_empty}
use go_transaction_control_p.Prelude.Int.{negsuc, ltb_ℤ, leb_ℤ, ℤ, pos}
use go_transaction_control_p.Prelude.{
  ◌-◌, ◌^◌, eq_bytes, ◌||◌, or_fail, fail_if, codes, ◌>>◌, ◌>>=◌, ◌*◌, if◌then◌else◌, Option, ℕ,
  Result, Bytes, ok, err, [], ◌∷◌,
}

pub record PoolConfig : Type 0 where
  pub max_conns : ℤ
  pub min_conns : ℤ
  pub max_conn_lifetime : ℤ
  pub max_conn_idle_time : ℤ

pub data PoolError : Type 0 where
  unknown_app_env bad_number below_minimum bad_duration no_duration : PoolError
  no_max_conns negative_min_conns min_above_max no_lifetime no_idle_time : PoolError

abbrev pub minute : ℕ
minute = 60000000000

-- LocalPoolConfig.
abbrev pub local_pool_config : PoolConfig
local_pool_config = record {
  max_conns = pos 5;
  min_conns = pos 1;
  max_conn_lifetime = pos (30 * minute);
  max_conn_idle_time = pos (5 * minute);
}

-- SandboxPoolConfig.
abbrev pub sandbox_pool_config : PoolConfig
sandbox_pool_config = record {
  max_conns = pos 20;
  min_conns = pos 5;
  max_conn_lifetime = pos (30 * minute);
  max_conn_idle_time = pos (2 * minute);
}

unfoldable pub validate_pool : PoolConfig → Result PoolError (Unit {0})
validate_pool cfg = do
  fail_if (ltb_ℤ cfg.max_conns (pos 1)) no_max_conns
  fail_if (ltb_ℤ cfg.min_conns (pos 0)) negative_min_conns
  fail_if (ltb_ℤ cfg.max_conns cfg.min_conns) min_above_max
  fail_if (leb_ℤ cfg.max_conn_lifetime (pos 0)) no_lifetime
  fail_if (leb_ℤ cfg.max_conn_idle_time (pos 0)) no_idle_time

-- strconv.ParseInt at base 10 and 32 bits.
parse_int32 : Bytes → Result PoolError ℤ
parse_int32 value = do
  parsed ← or_fail (atoi value) bad_number
  fail_if (ltb_ℤ (pos (2 ^ 31 - 1)) parsed || ltb_ℤ parsed (negsuc (2 ^ 31 - 1))) bad_number
  ok parsed

-- overrideInt32FromEnv, of the variable's value.
unfoldable pub override_int32 : Bytes → ℤ → ℤ → Result PoolError ℤ
unfolding parse_int32
override_int32 [] current min_allowed = ok current
override_int32 (c ∷ s) current min_allowed = do
  parsed ← parse_int32 (c ∷ s)
  fail_if (ltb_ℤ parsed min_allowed) below_minimum
  ok parsed

-- overrideDurationFromEnv, of the variable's value.
unfoldable pub override_positive : (Bytes → Option ℤ) → Bytes → ℤ → Result PoolError ℤ
override_positive parse_duration [] current = ok current
override_positive parse_duration (c ∷ s) current = do
  parsed ← or_fail (parse_duration (c ∷ s)) bad_duration
  fail_if (leb_ℤ parsed (pos 0)) no_duration
  ok parsed

-- The settings that APP_ENV names; an empty or missing value is "local".
unfoldable pub deployed_config : Bytes → Result PoolError PoolConfig
deployed_config app_env =
    if is_empty app_env || eq_bytes app_env (codes "local")
    then ok local_pool_config
    else if eq_bytes app_env (codes "sandbox")
    then ok sandbox_pool_config
    else err unknown_app_env

-- PoolConfigFromEnv; `env` is os.Getenv.
unfoldable pub pool_config_from_env :
    (Bytes → Option ℤ) → (Bytes → Bytes) → Result PoolError PoolConfig
unfolding override_int32 override_positive
pool_config_from_env parse_duration env = do
  base ← deployed_config (env (codes "APP_ENV"))
  max_conns ← override_int32 (env (codes "PGPOOL_MAX_CONNS")) base.max_conns (pos 1)
  min_conns ← override_int32 (env (codes "PGPOOL_MIN_CONNS")) base.min_conns (pos 0)
  lifetime ←
      override_positive parse_duration (env (codes "PGPOOL_MAX_CONN_LIFETIME"))
        base.max_conn_lifetime
  idle_time ←
      override_positive parse_duration (env (codes "PGPOOL_MAX_CONN_IDLE_TIME"))
        base.max_conn_idle_time
  let config : PoolConfig = record {
    max_conns = max_conns;
    min_conns = min_conns;
    max_conn_lifetime = lifetime;
    max_conn_idle_time = idle_time;
  }
  validate_pool config
  ok config
