-- ===== src/Api/RateLimiter.antt =====
-- internal/api/rate_limiter.go: a token bucket for each API key, in 64 shards. A call reads the clock
-- and then decides under the lock of the bucket, or of the shard where it creates the bucket; each
-- call is the one step in which it decides. Buckets are never removed, so the bucket that a call has
-- found under the read lock is the one in the shard later, too.
use go_transaction_control_p.Breaker.{time_sub}
use go_transaction_control_p.Api.Auth.{
  bearer_token_from_context, health_check_service_prefix, too_many_requests, has_prefix,
  bearer_token, Reply,
}
pub mod Buckets
pub mod Bound
pub mod Nan
use Prim.Native.Nat.{bit_xor, bit_and}
use go_transaction_control_p.Prelude.Int.{leb_ℤ, ℤ, pos}
use go_transaction_control_p.Prelude.{
  ◌-◌, ◌^◌, ◌%◌, ◌==◌, ◌*◌, fail_if, eq_bytes, ◌>>◌, if◌then◌else◌, Option, ℕ, Result, List, Bytes,
  Bool, true, false, ok, err, none, some, [], ◌∷◌,
}

-- The operations of float64 that the code uses; `seconds` is Duration.Seconds.
pub record Floats (F : Type 0) : Type 0 where
  pub of_int : ℤ → F
  pub seconds : ℤ → F
  pub add : F → F → F
  pub sub : F → F → F
  pub mul : F → F → F
  pub least : F → F → F
  pub less : F → F → Bool
  pub at_most : F → F → Bool

pub record RateLimitConfig (F : Type 0) : Type 0 where
  pub requests_per_second : F
  pub burst : ℤ

pub record TokenBucket (F : Type 0) : Type 0 where
  pub tokens : F
  pub last_refill : ℤ

abbrev pub rate_limiter_shard_count : ℕ
rate_limiter_shard_count = 64

-- `shards` at an index below the number of shards.
pub record RateLimiter (F : Type 0) : Type 0 where
  pub rate : F
  pub burst : F
  pub shards : ℕ → List (Bytes × TokenBucket F)

pub data RateLimitError : Type 0 where
  rate_not_positive burst_not_positive : RateLimitError

unfoldable pub fnv_from : ℕ → Bytes → ℕ
fnv_from hash [] = hash
fnv_from hash (byte ∷ key) = fnv_from (bit_xor hash byte * 16777619 % 2 ^ 32) key

unfoldable pub fnv32a : Bytes → ℕ
unfolding fnv_from
fnv32a key = fnv_from 2166136261 key

unfoldable pub shard_of : Bytes → ℕ
unfolding fnv32a
shard_of key = bit_and (fnv32a key) (rate_limiter_shard_count - 1)

-- A map read, and a map written, at a key.
unfoldable pub find_bucket :
    {F : Type 0} → List (Bytes × TokenBucket F) → Bytes → Option (TokenBucket F)
find_bucket [] key = none
find_bucket ((k, bucket) ∷ buckets) key =
    let rest = find_bucket buckets key in if eq_bytes k key then some bucket else rest

unfoldable pub put_bucket :
    {F : Type 0}
    → List (Bytes × TokenBucket F)
    → Bytes
    → TokenBucket F
    → List (Bytes × TokenBucket F)
put_bucket [] key bucket = (key, bucket) ∷ []
put_bucket ((k, old) ∷ buckets) key bucket =
    let rest = put_bucket buckets key bucket in
    if eq_bytes k key then (k, bucket) ∷ buckets else (k, old) ∷ rest

module _ {F : Type 0} (floats : Floats F) where
  abbrev pub zero_float : F
  zero_float = floats.of_int (pos 0)

  abbrev pub one_float : F
  one_float = floats.of_int (pos 1)

  unfoldable pub new_rate_limiter : RateLimitConfig F → Result RateLimitError (RateLimiter F)
  new_rate_limiter cfg = do
    fail_if (floats.at_most cfg.requests_per_second zero_float) rate_not_positive
    fail_if (leb_ℤ cfg.burst (pos 0)) burst_not_positive
    ok (record {
      rate = cfg.requests_per_second;
      burst = floats.of_int cfg.burst;
      shards = λ i. [];
    })

  -- tokenBucket.allow's last test, on the refilled bucket.
  unfoldable pub spend : TokenBucket F → TokenBucket F × Bool
  spend bucket =
      if floats.less bucket.tokens one_float
      then (bucket, false)
      else (record bucket { tokens = floats.sub bucket.tokens one_float }, true)

  unfoldable pub refill : F → F → ℤ → TokenBucket F → TokenBucket F
  refill rate burst now bucket =
      let elapsed = floats.seconds (time_sub now bucket.last_refill) in
      record {
        tokens = floats.least burst (floats.add bucket.tokens (floats.mul elapsed rate));
        last_refill = now;
      }

  -- tokenBucket.allow.
  unfoldable pub allow_bucket : F → F → ℤ → TokenBucket F → TokenBucket F × Bool
  unfolding spend refill
  allow_bucket rate burst now bucket = spend (refill rate burst now bucket)

  -- The bucket of a key that has none: its first token is spent by the call itself.
  unfoldable pub allow_found : RateLimiter F → ℤ → Option (TokenBucket F) → TokenBucket F × Bool
  unfolding allow_bucket
  allow_found limiter now (some bucket) = allow_bucket limiter.rate limiter.burst now bucket
  allow_found limiter now none =
      (record { tokens = floats.sub limiter.burst one_float; last_refill = now }, true)

  unfoldable pub set_bucket : RateLimiter F → Bytes → TokenBucket F → RateLimiter F
  unfolding put_bucket
  set_bucket limiter key bucket = record limiter {
    shards = λ i.
        if i == shard_of key then put_bucket (limiter.shards i) key bucket else limiter.shards i;
  }

  unfoldable pub bucket_of : RateLimiter F → Bytes → Option (TokenBucket F)
  unfolding find_bucket
  bucket_of limiter key = find_bucket (limiter.shards (shard_of key)) key

  -- rateLimiter.allow.
  unfoldable pub allow_key : ℤ → RateLimiter F → Bytes → RateLimiter F × Bool
  unfolding allow_found set_bucket bucket_of
  allow_key now limiter key =
      let (bucket, allowed) = allow_found limiter now (bucket_of limiter key) in
      (set_bucket limiter key bucket, allowed)

module _ {F W A : Type 0} (floats : Floats F) (clock : W → ℤ) where
  unfoldable pub limit_next :
      (RateLimiter F × W → (RateLimiter F × W) × Reply A)
      → W
      → RateLimiter F × Bool
      → (RateLimiter F × W) × Reply A
  limit_next next w (limiter, true) = next (limiter, w)
  limit_next next w (limiter, false) = ((limiter, w), too_many_requests)

  unfoldable pub limit_found :
      (RateLimiter F × W → (RateLimiter F × W) × Reply A)
      → RateLimiter F × W
      → Option Bytes
      → (RateLimiter F × W) × Reply A
  limit_found next (limiter, w) none = ((limiter, w), too_many_requests)
  limit_found next (limiter, w) (some key) =
      limit_next next w (allow_key floats (clock w) limiter key)

  -- middleware, given the Authorization header.
  unfoldable pub limit_middleware :
      (RateLimiter F × W → (RateLimiter F × W) × Reply A)
      → RateLimiter F × W
      → Bytes
      → (RateLimiter F × W) × Reply A
  limit_middleware next s header = limit_found next s (bearer_token header)

  -- unaryInterceptor, given the full method name and the metadata.
  unfoldable pub limit_interceptor :
      (RateLimiter F × W → (RateLimiter F × W) × Reply A)
      → RateLimiter F × W
      → Bytes
      → Option (List Bytes)
      → (RateLimiter F × W) × Reply A
  limit_interceptor next s method metadata =
      if has_prefix method health_check_service_prefix
      then next s
      else limit_found next s (bearer_token_from_context metadata)
