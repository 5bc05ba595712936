-- ===== src/Settings/Start/Ready.antt =====
-- What an ingestion service that starts is made of (cmd/ingestion/main.go, run).
use go_transaction_control_p.Ingestion.Publisher.Config.{config_from_env}
use go_transaction_control_p.Settings.{bad_duration}
use go_transaction_control_p.Settings.Keys.{api_keys_from_env-accepted}
use go_transaction_control_p.Api.Server.{limiter_for, ServerError, keys_checked, new_server}
use go_transaction_control_p.Breaker.Trips.{new-IsValid, IsValid}
use go_transaction_control_p.Api.Auth.{new_api_key_authenticator}
use go_transaction_control_p.Settings.Start.{
  breaker_error, publisher_error, metrics_error, kafka_error, service_of, limiter_error,
  with_breaker_config, setting_error, server_error, with_keys, with_kafka, with_breaker,
  start_servers, start_ingestion, KafkaConfig, Service,
}
use go_transaction_control_p.Ingestion.Backpressure.{
  BackpressureError, max_backpressure_in_flight, Limiter, validate_limit, new_limiter,
}
use go_transaction_control_p.Api.RateLimiter.{
  RateLimitError, new_rate_limiter, RateLimiter, RateLimitConfig, Floats,
}
use mathlib.Core.Path.{subst}
use go_transaction_control_p.Prelude.Int.{pos, ℤ}
use go_transaction_control_p.Ledger.Amount.{parse_uint}
use go_transaction_control_p.Settings.{
  rate_limit_config_from_env, backpressure_config_from_env, api_keys_from_env, SettingError,
  breaker_config_from_env, ingestion_breaker_config, bad_threshold, at_most_32, parse_uint32,
  setting,
}
use go_transaction_control_p.Ledger.Storage.{map_error}
use go_transaction_control_p.Breaker.{Machine, new, Config}
use go_transaction_control_p.Prelude.{
  ◌>>◌, not, fail_if, ap, sym, List, ◌≤◌, Bool, codes, or_fail, arith, Option, ◌^◌, ◌<◌, Bytes, ℕ,
  bind_ok, ◌≡◌, ◌>>=◌, Result, ok, err, none, some, [], ◌∷◌, refl,
}

map_error_ok :
    {E E' A : Type 0} (f : E → E') (r : Result E A) (a : A) → map_error f r ≡ ok a → r ≡ ok a
unfolding map_error
map_error_ok f (ok x) a h = cc h
map_error_ok f (err e) a h = absurd cc

bind_mapped :
    {E E' A B : Type 0} (f : E → E') (r : Result E A) (g : A → Result E' B) (b : B)
    → (map_error f r >>= g) ≡ ok b
    → (a : A) × (r ≡ ok a) × (g a ≡ ok b)
bind_mapped f r g b h =
    let (a, e, k) = bind_ok (map_error f r) g b h in (a, map_error_ok f r a e, k)

ok_inj : {E A : Type 0} {a b : A} → ◌≡◌ {A = Result E A} (ok a) (ok b) → a ≡ b
ok_inj h = cc h

word_of :
    (o : Option ℕ) (threshold : ℕ)
    → or_fail (at_most_32 o) bad_threshold ≡ ok threshold
    → threshold < 2 ^ 32
unfolding at_most_32
word_of none threshold e = absurd cc
word_of (some n) threshold e = ground (arith, e)

threshold_word :
    (n : ℕ) (s : Bytes) (threshold : ℕ)
    → n < 2 ^ 32
    → setting parse_uint32 bad_threshold s n ≡ ok threshold
    → threshold < 2 ^ 32
unfolding setting parse_uint32 at_most_32
threshold_word n [] threshold h e = omega (arith, ok_inj e, h)
threshold_word n (c ∷ s) threshold h e = word_of (parse_uint (c ∷ s)) threshold e

threshold_first :
    {A B : Type 0} (r : Result SettingError ℕ) (o : Result SettingError A)
    (p : Result SettingError B) (build : ℕ → A → B → Config) (config : Config)
    → ((n : ℕ) (a : A) (b : B) → (build n a b).failure_threshold ≡ n)
    → ((n : ℕ) → r ≡ ok n → n < 2 ^ 32)
    → (r >>= λ n. o >>= λ a. p >>= λ b. ok (build n a b)) ≡ ok config
    → config.failure_threshold < 2 ^ 32
threshold_first (err e) o p build config f w h = absurd cc
threshold_first (ok n) (err e) p build config f w h = absurd cc
threshold_first (ok n) (ok a) (err e) build config f w h = absurd cc
threshold_first (ok n) (ok a) (ok b) build config f w h =
    subst (λ c. c.failure_threshold < 2 ^ 32) (ok_inj h)
      (subst (λ x. x < 2 ^ 32) (sym (f n a b)) (w n refl))

ingestion_threshold :
    (parse_duration : Bytes → Option ℤ) (env : Bytes → Bytes) (config : Config)
    → ingestion_breaker_config parse_duration env ≡ ok config
    → config.failure_threshold < 2 ^ 32
unfolding ingestion_breaker_config breaker_config_from_env
ingestion_threshold parse_duration env config h =
    threshold_first
      (setting parse_uint32 bad_threshold (env (codes "INGESTION_BREAKER_FAILURE_THRESHOLD")) 5)
      (setting parse_duration bad_duration (env (codes "INGESTION_BREAKER_OPEN_TIMEOUT"))
        (pos 30000000000))
      (setting parse_duration bad_duration (env (codes "INGESTION_BREAKER_PROBE_TIMEOUT"))
        (pos 30000000000))
      (λ n a b. record { failure_threshold = n; open_timeout = a; probe_timeout = b }) config
      (λ n a b. refl)
      (λ n e.
        threshold_word 5 (env (codes "INGESTION_BREAKER_FAILURE_THRESHOLD")) n (omega arith) e)
      h

-- What holds of every part of a service that starts.
pub record IsReady {F : Type 0} (service : Service F) : Type 0 where
  pub keys_accepted : new_api_key_authenticator service.http.0 ≡ ok service.http.0
  pub same_servers : service.grpc ≡ service.http
  pub machine_valid : IsValid service.shared.machine
  pub some_slots : 0 < service.shared.limiter.capacity
  pub few_slots : service.shared.limiter.capacity ≤ max_backpressure_in_flight
  pub no_calls : service.shared.limiter.slots ≡ 0

limiter_slots :
    (n : ℤ) (limiter : Limiter)
    → new_limiter n ≡ ok limiter
    → (0 < limiter.capacity) × (limiter.capacity ≤ max_backpressure_in_flight) × (limiter.slots ≡ 0)
unfolding new_limiter validate_limit
limiter_slots n limiter h = ground (arith, h)

module _ {F : Type 0} (floats : Floats F) (parse_float : Bytes → Option F)
    (parse_duration : Bytes → Option ℤ) (publisher_made : KafkaConfig → Bool)
    (metrics_made : Bool) where
  limiter_for-keys :
      (keys : List Bytes) (limiter : Result RateLimitError (RateLimiter F))
      (server : List Bytes × RateLimiter F)
      → limiter_for keys limiter ≡ ok server
      → server.0 ≡ keys
  unfolding limiter_for
  limiter_for-keys keys (ok limiter) server h = ap (λ x. x.0) (sym (ok_inj h))
  limiter_for-keys keys (err e) server h = absurd cc

  server_keys :
      (keys : List Bytes) (cfg : RateLimitConfig F) (server : List Bytes × RateLimiter F)
      → new_api_key_authenticator keys ≡ ok keys
      → new_server floats keys cfg ≡ ok server
      → new_api_key_authenticator server.0 ≡ ok server.0
  unfolding new_server keys_checked
  server_keys keys cfg server a h =
      let checked : keys_checked floats cfg (ok keys) ≡ ok server =
        subst (λ x. keys_checked floats cfg x ≡ ok server) a h in
      subst (λ x. new_api_key_authenticator x ≡ ok x)
        (sym (limiter_for-keys keys (new_rate_limiter floats cfg) server checked)) a

  both-IsReady :
      (r : Result ServerError (List Bytes × RateLimiter F)) (kafka : KafkaConfig)
      (machine : Machine) (limiter : Limiter) (service : Service F)
      → (map_error server_error r >>= λ http.
          map_error server_error r >>= λ grpc. ok (service_of kafka machine limiter http grpc))
        ≡ ok service
      → ((server : List Bytes × RateLimiter F)
          → r ≡ ok server
          → new_api_key_authenticator server.0 ≡ ok server.0)
      → IsValid machine
      → (0 < limiter.capacity)
        × (limiter.capacity ≤ max_backpressure_in_flight)
        × (limiter.slots ≡ 0)
      → IsReady service
  unfolding map_error
  both-IsReady (err e) kafka machine limiter service h a v l = absurd cc
  both-IsReady (ok server) kafka machine limiter service h a v (some_slots, few_slots, no_calls) =
      subst IsReady (ok_inj h) (record {
        keys_accepted = a server refl;
        same_servers = refl;
        machine_valid = v;
        some_slots = some_slots;
        few_slots = few_slots;
        no_calls = no_calls;
      })

  -- The servers, and the limiter before them, of a service that starts.
  servers-IsReady :
      (keys : List Bytes) (rate : RateLimitConfig F) (kafka : KafkaConfig) (machine : Machine)
      (limiter : Limiter) (service : Service F)
      → new_api_key_authenticator keys ≡ ok keys
      → IsValid machine
      → (0 < limiter.capacity)
        × (limiter.capacity ≤ max_backpressure_in_flight)
        × (limiter.slots ≡ 0)
      → start_servers floats parse_float parse_duration publisher_made metrics_made keys rate kafka
          machine limiter
        ≡ ok service
      → IsReady service
  unfolding start_servers
  servers-IsReady keys rate kafka machine limiter service a v l h =
      both-IsReady (new_server floats keys rate) kafka machine limiter service h
        (λ server e. server_keys keys rate server a e) v l

  limited-IsReady :
      (keys : List Bytes) (rate : RateLimitConfig F) (kafka : KafkaConfig) (machine : Machine)
      (n : ℤ) (made : Result BackpressureError Limiter) (service : Service F)
      → new_api_key_authenticator keys ≡ ok keys
      → IsValid machine
      → new_limiter n ≡ made
      → (map_error limiter_error made >>= λ limiter.
          fail_if (not metrics_made) metrics_error
          >> start_servers floats parse_float parse_duration publisher_made metrics_made keys rate
              kafka machine limiter)
        ≡ ok service
      → IsReady service
  unfolding map_error
  limited-IsReady keys rate kafka machine n (err e) service a v m h = absurd cc
  limited-IsReady keys rate kafka machine n (ok limiter) service a v m h =
      let start = λ (x : Unit {0}).
        start_servers floats parse_float parse_duration publisher_made metrics_made keys rate kafka
          machine limiter in
      let (_, _, h') = bind_ok (fail_if (not metrics_made) metrics_error) start service h in
      servers-IsReady keys rate kafka machine limiter service a v (limiter_slots n limiter m) h'

  with_breaker-IsReady :
      (env : Bytes → Bytes) (keys : List Bytes) (rate : RateLimitConfig F) (kafka : KafkaConfig)
      (machine : Machine) (service : Service F)
      → new_api_key_authenticator keys ≡ ok keys
      → IsValid machine
      → with_breaker floats parse_float parse_duration publisher_made metrics_made env keys rate
          kafka machine
        ≡ ok service
      → IsReady service
  unfolding with_breaker
  with_breaker-IsReady env keys rate kafka machine service a v h =
      let (n, _, h') =
        bind_mapped setting_error (backpressure_config_from_env env)
          (λ n. map_error limiter_error (new_limiter n) >>= λ limiter.
            fail_if (not metrics_made) metrics_error
            >> start_servers floats parse_float parse_duration publisher_made metrics_made keys rate
                kafka machine limiter)
          service h in
      limited-IsReady keys rate kafka machine n (new_limiter n) service a v refl h'

  with_kafka-IsReady :
      (env : Bytes → Bytes) (keys : List Bytes) (rate : RateLimitConfig F) (kafka : KafkaConfig)
      (service : Service F)
      → new_api_key_authenticator keys ≡ ok keys
      → with_kafka floats parse_float parse_duration publisher_made metrics_made env keys rate kafka
        ≡ ok service
      → IsReady service
  unfolding with_kafka with_breaker_config
  with_kafka-IsReady env keys rate kafka service a h =
      let with_config =
        with_breaker_config floats parse_float parse_duration publisher_made metrics_made env keys
          rate kafka in
      let (_, _, h1) =
        bind_ok (fail_if (not (publisher_made kafka)) publisher_error)
          (λ x.
            map_error setting_error (ingestion_breaker_config parse_duration env) >>= with_config)
          service h in
      let (config, e, h2) =
        bind_mapped setting_error (ingestion_breaker_config parse_duration env) with_config service
          h1 in
      let (machine, e', h3) =
        bind_mapped breaker_error (new config)
          (with_breaker floats parse_float parse_duration publisher_made metrics_made env keys rate
            kafka)
          service h2 in
      with_breaker-IsReady env keys rate kafka machine service a
        (new-IsValid config machine (ingestion_threshold parse_duration env config e) e') h3

  -- If run gets to the start of the servers, then both have the same keys, at least one and none
  -- empty, and equal limiters; the breaker of the publishers has a threshold that failures can reach;
  -- and the limit on the calls in flight is positive and at most 100000, with no slot taken.
  pub start_ingestion-IsReady :
      (env : Bytes → Bytes) (service : Service F)
      → start_ingestion floats parse_float parse_duration publisher_made metrics_made env
        ≡ ok service
      → IsReady service
  unfolding start_ingestion with_keys
  start_ingestion-IsReady env service h =
      let (keys, e, h1) =
        bind_mapped setting_error (api_keys_from_env env)
          (with_keys floats parse_float parse_duration publisher_made metrics_made env) service h in
      let (rate, _, h2) =
        bind_mapped setting_error (rate_limit_config_from_env floats parse_float env)
          (λ rate.
            map_error (λ e. kafka_error) (config_from_env parse_duration env)
            >>= with_kafka floats parse_float parse_duration publisher_made metrics_made env keys
                rate)
          service h1 in
      let (kafka, _, h3) =
        bind_mapped (λ e. kafka_error) (config_from_env parse_duration env)
          (with_kafka floats parse_float parse_duration publisher_made metrics_made env keys rate)
          service h2 in
      with_kafka-IsReady env keys rate kafka service (api_keys_from_env-accepted env keys e) h3
