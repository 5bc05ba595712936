-- ===== src/Api/RateLimiter/Nan.antt =====
-- A rate that is not a number (internal/api/rate_limiter.go, newRateLimiter): cmd/ingestion/main.go
-- reads the rate with strconv.ParseFloat, which accepts "NaN".
use go_transaction_control_p.Api.RateLimiter.Buckets.{allow_key-Isolated}
use go_transaction_control_p.Prelude.Int.{◌<ℤ◌, pos, ℤ}
use go_transaction_control_p.Api.RateLimiter.{
  bucket_of, allow_key, allow_bucket, TokenBucket, spend, refill, new_rate_limiter, allow_found,
  RateLimiter, Floats,
}
use go_transaction_control_p.Prelude.{
  ◌∙◌, arith, Bool, All, Option, Bytes, List, ◌≡◌, true, false, ok, none, some, [], ◌∷◌, refl,
}

-- What Go documents of NaN: it fails every comparison, and operations on it give it again.
pub record IsNan {F : Type 0} (floats : Floats F) (nan : F) : Type 0 where
  pub not_at_most : (x : F) → floats.at_most nan x ≡ false
  pub not_less : (x : F) → floats.less nan x ≡ false
  pub mul_nan : (x : F) → floats.mul x nan ≡ nan
  pub add_nan : (x : F) → floats.add x nan ≡ nan
  pub least_nan : (x : F) → floats.least x nan ≡ nan

-- The answers to the calls, each with its time and its key.
unfoldable pub answers : {F : Type 0} → Floats F → RateLimiter F → List (ℤ × Bytes) → List Bool
answers floats limiter [] = []
answers floats limiter ((now, key) ∷ calls) =
    let (after, allowed) = allow_key floats now limiter key in allowed ∷ answers floats after calls

module _ {F : Type 0} (floats : Floats F) (nan : F) (is_nan : IsNan floats nan) where
  refill_nan :
      (burst : F) (now : ℤ) (bucket : TokenBucket F)
      → (refill floats nan burst now bucket).tokens ≡ nan
  unfolding refill
  refill_nan burst now bucket = rw is_nan.mul_nan (rw is_nan.add_nan (is_nan.least_nan burst))

  spend_nan : (bucket : TokenBucket F) → bucket.tokens ≡ nan → (spend floats bucket).1 ≡ true
  unfolding spend
  spend_nan bucket h = rw h (rw is_nan.not_less refl)

  allow_found-nan :
      (limiter : RateLimiter F) (now : ℤ) (found : Option (TokenBucket F))
      → limiter.rate ≡ nan
      → (allow_found floats limiter now found).1 ≡ true
  unfolding allow_found allow_bucket
  allow_found-nan limiter now none h = refl
  allow_found-nan limiter now (some bucket) h =
      rw h (
        spend_nan (refill floats nan limiter.burst now bucket)
          (refill_nan limiter.burst now bucket))

  answers_nan :
      (limiter : RateLimiter F) (calls : List (ℤ × Bytes))
      → limiter.rate ≡ nan
      → All (λ allowed. allowed ≡ true) (answers floats limiter calls)
  unfolding answers
  answers_nan limiter [] h = tt
  answers_nan limiter ((now, key) ∷ calls) h =
      let isolated = allow_key-Isolated floats now limiter key in
      (
        isolated.0 ∙ allow_found-nan limiter now (bucket_of floats limiter key) h,
        answers_nan (allow_key floats now limiter key).0 calls (isolated.2 ∙ h),
      )

  -- A configuration whose rate is NaN and whose burst is positive is accepted, and the limiter that is
  -- made of it lets every request through, whatever the keys and the times.
  pub nan_rate_never_limits :
      (burst : ℤ)
      → pos 0 <ℤ burst
      → (limiter : RateLimiter F) × (new_rate_limiter floats
            (record { requests_per_second = nan; burst = burst })
          ≡ ok limiter)
        × ((calls : List (ℤ × Bytes))
            → All (λ allowed. allowed ≡ true) (answers floats limiter calls))
  unfolding new_rate_limiter
  nan_rate_never_limits burst h =
      let limiter : RateLimiter F = record {
        rate = nan;
        burst = floats.of_int burst;
        shards = λ i. [];
      } in
      (limiter, rw is_nan.not_at_most (ground (arith, h)), λ calls. answers_nan limiter calls refl)
