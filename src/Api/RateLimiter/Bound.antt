-- ===== src/Api/RateLimiter/Bound.antt =====
-- How many requests of one key the limiter lets through (internal/api/rate_limiter.go), in fixed-point
-- arithmetic with 18 digits, rounded down, in place of float64.
use go_transaction_control_p.Api.RateLimiter.Buckets.{allow_key-Isolated}
use mathlib.Core.Path.{subst}
use native.Mathlib.Nat.{add-mul, mul-le-mul_right}
use go_transaction_control_p.Breaker.{time_sub}
use go_transaction_control_p.Prelude.Int.{◌-ℤ◌, ◌≤ℤ◌, pos_part, ℤ}
use go_transaction_control_p.Api.RateLimiter.{
  find_bucket, RateLimitConfig, refill, new_rate_limiter, bucket_of, allow_bucket, spend,
  allow_found, allow_key, TokenBucket, RateLimiter, Floats,
}
use go_transaction_control_p.Prelude.{
  ◌<◌, eq_of_eq_bytes, eq_bytes_refl, sym, Bool, ◌≡◌, Bool-cases, arith, ltb, eq_bytes, ◌&&◌, leb,
  if◌then◌else◌, ◌≤◌, ◌/◌, ◌-◌, ◌+◌, ◌*◌, Option, List, ℕ, Bytes, true, false, ok, none, some, [],
  ◌∷◌, inl, inr, refl,
}

-- A token, in the units of the arithmetic.
abbrev pub unit_token : ℕ
unit_token = 1000000000000000000

abbrev pub fixed_point : Floats ℕ
fixed_point = record {
  of_int = λ n. pos_part n * unit_token;
  seconds = λ d. pos_part d * 1000000000;
  add = λ x y. x + y;
  sub = λ x y. x - y;
  mul = λ x y. x * y / unit_token;
  least = λ x y. if leb x y then x else y;
  less = λ x y. ltb x y;
  at_most = λ x y. leb x y;
}

-- The refill in a number of nanoseconds, at a rate.
abbrev pub refilled : ℕ → ℕ → ℕ
refilled rate elapsed = elapsed * 1000000000 * rate / unit_token

-- How many of the calls, each with its time and its key, are let through for one key.
unfoldable pub count_allowed : Bytes → RateLimiter ℕ → List (ℤ × Bytes) → ℕ
count_allowed key limiter [] = 0
count_allowed key limiter ((now, asked) ∷ calls) =
    let (after, allowed) = allow_key fixed_point now limiter asked in
    let rest = count_allowed key after calls in
    if allowed && eq_bytes asked key then rest + 1 else rest

-- The calls decide at times in order, between two times.
abbrev pub Within : ℤ → ℤ → List (ℤ × Bytes) → Type 0
Within start finish [] = start ≤ℤ finish
Within start finish ((now, asked) ∷ calls) = (start ≤ℤ now) × Within now finish calls

div_add : (x y z : ℕ) → x + y ≤ z → x / unit_token + y / unit_token ≤ z / unit_token
div_add x y z h = omega (arith, h)

refilled_add : (rate d e n : ℕ) → d + e ≤ n → refilled rate d + refilled rate e ≤ refilled rate n
refilled_add rate d e n h =
    div_add (d * 1000000000 * rate) (e * 1000000000 * rate) (n * 1000000000 * rate) (
      subst (λ x. x ≤ n * 1000000000 * rate) (add-mul (d * 1000000000) (e * 1000000000) rate)
        (mul-le-mul_right rate (omega (arith, h))))

elapsed_bound : (now then_at : ℤ) → pos_part (time_sub now then_at) ≤ pos_part (now -ℤ then_at)
unfolding ◌-ℤ◌
elapsed_bound now then_at = ground arith

-- What the calls up to a time may take from a bucket, the last call being at `t`.
credit : RateLimiter ℕ → ℤ → ℤ → Option (TokenBucket ℕ) → ℕ
credit limiter finish t none = limiter.burst + refilled limiter.rate (pos_part (finish -ℤ t))
credit limiter finish t (some bucket) =
    bucket.tokens + refilled limiter.rate (pos_part (finish -ℤ bucket.last_refill))

Timely : ℤ → Option (TokenBucket ℕ) → Type 0
Timely t none = Unit
Timely t (some bucket) = bucket.last_refill ≤ℤ t

split_time :
    (start now finish : ℤ)
    → start ≤ℤ now
    → now ≤ℤ finish
    → pos_part (now -ℤ start) + pos_part (finish -ℤ now) ≤ pos_part (finish -ℤ start)
unfolding ◌-ℤ◌
split_time start now finish h k = ground arith

least_credit :
    (burst tokens gained later budget : ℕ)
    → gained + later ≤ budget
    → (if leb burst (tokens + gained) then burst else tokens + gained) + later ≤ tokens + budget
least_credit burst tokens gained later budget h = ground arith

spend_time :
    (bucket : TokenBucket ℕ) → (spend fixed_point bucket).0.last_refill ≤ℤ bucket.last_refill
unfolding spend
spend_time bucket = ground arith

-- One call, decided by a bucket that it may have found.
module _ (limiter : RateLimiter ℕ) (finish : ℤ) (enough : unit_token ≤ limiter.burst) where
  refill-credit :
      (now : ℤ) (bucket : TokenBucket ℕ) (later budget : ℕ)
      → refilled limiter.rate (pos_part (time_sub now bucket.last_refill)) + later ≤ budget
      → (refill fixed_point limiter.rate limiter.burst now bucket).tokens + later
        ≤ bucket.tokens + budget
  unfolding refill
  refill-credit now bucket later budget h =
      least_credit limiter.burst bucket.tokens
        (refilled limiter.rate (pos_part (time_sub now bucket.last_refill))) later budget h

  spend-credit :
      (now : ℤ) (bucket : TokenBucket ℕ) (budget : ℕ)
      → bucket.tokens + refilled limiter.rate (pos_part (finish -ℤ bucket.last_refill)) ≤ budget
      → let r = spend fixed_point bucket in
        (if r.1 then unit_token else 0) + credit limiter finish now (some r.0) ≤ budget
  unfolding spend credit
  spend-credit now bucket budget h = ground (arith, h)

  allow_found-credit :
      (start now : ℤ) (found : Option (TokenBucket ℕ))
      → start ≤ℤ now
      → now ≤ℤ finish
      → Timely start found
      → let r = allow_found fixed_point limiter now found in
        ((if r.1 then unit_token else 0) + credit limiter finish now (some r.0)
          ≤ credit limiter finish start found)
        × Timely now (some r.0)
  unfolding allow_found credit allow_bucket Timely
  allow_found-credit start now none h k t =
      let later =
        refilled_add limiter.rate (pos_part (now -ℤ start)) (pos_part (finish -ℤ now))
          (pos_part (finish -ℤ start)) (split_time start now finish h k) in
      (omega (arith, enough, later), omega arith)
  allow_found-credit start now (some bucket) h k t =
      let earlier = elapsed_bound now bucket.last_refill in
      let split = split_time bucket.last_refill now finish (omega (arith, h, t)) k in
      let later =
        refilled_add limiter.rate (pos_part (time_sub now bucket.last_refill))
          (pos_part (finish -ℤ now)) (pos_part (finish -ℤ bucket.last_refill))
          (omega (arith, earlier, split)) in
      let refilled_bucket = refill fixed_point limiter.rate limiter.burst now bucket in
      (
        spend-credit now refilled_bucket
            (bucket.tokens + refilled limiter.rate (pos_part (finish -ℤ bucket.last_refill)))
            (refill-credit now bucket (refilled limiter.rate (pos_part (finish -ℤ now)))
              (refilled limiter.rate (pos_part (finish -ℤ bucket.last_refill))) later),
        spend_time refilled_bucket,
      )

own_sum :
    (allowed : Bool) (after budget : ℕ)
    → (if allowed then unit_token else 0) + after ≤ budget
    → (if allowed && true then unit_token else 0) + after ≤ budget
own_sum allowed after budget h = ground (arith, h)

other_sum :
    (allowed : Bool) (after budget : ℕ)
    → after ≤ budget
    → (if allowed && false then unit_token else 0) + after ≤ budget
other_sum allowed after budget h = ground (arith, h)

credit_same :
    (limiter after : RateLimiter ℕ) (finish t : ℤ) (found : Option (TokenBucket ℕ))
    → after.rate ≡ limiter.rate
    → after.burst ≡ limiter.burst
    → credit after finish t found ≡ credit limiter finish t found
unfolding credit
credit_same limiter after finish t none r b = rw r (rw b refl)
credit_same limiter after finish t (some bucket) r b = rw r refl

credit_later :
    (limiter : RateLimiter ℕ) (finish start now : ℤ) (found : Option (TokenBucket ℕ))
    → start ≤ℤ now
    → now ≤ℤ finish
    → credit limiter finish now found ≤ credit limiter finish start found
unfolding credit
credit_later limiter finish start now none h k =
    let later =
      refilled_add limiter.rate (pos_part (now -ℤ start)) (pos_part (finish -ℤ now))
        (pos_part (finish -ℤ start)) (split_time start now finish h k) in
    omega (arith, later)
credit_later limiter finish start now (some bucket) h k = omega arith

Timely-later :
    (start now : ℤ) (found : Option (TokenBucket ℕ))
    → start ≤ℤ now
    → Timely start found
    → Timely now found
unfolding Timely
Timely-later start now none h t = t
Timely-later start now (some bucket) h t = omega (arith, h, t)

Within_ends :
    (start finish : ℤ) (calls : List (ℤ × Bytes)) → Within start finish calls → start ≤ℤ finish
Within_ends start finish [] w = w
Within_ends start finish ((now, asked) ∷ calls) (h, w) =
    omega (arith, h, Within_ends now finish calls w)

counted :
    (allowed same : Bool) (rest after budget : ℕ)
    → rest * unit_token ≤ after
    → (if allowed && same then unit_token else 0) + after ≤ budget
    → (if allowed && same then rest + 1 else rest) * unit_token ≤ budget
counted allowed same rest after budget h k = ground (arith, h, k)

-- What a call does to what is left for the key.
abbrev Spends : Bytes → Bytes → RateLimiter ℕ → ℤ → ℤ → ℤ → RateLimiter ℕ × Bool → Type 0
Spends key asked limiter start now finish after =
    ((if after.1 && eq_bytes asked key then unit_token else 0)
        + credit after.0 finish now (bucket_of fixed_point after.0 key)
      ≤ credit limiter finish start (bucket_of fixed_point limiter key))
    × Timely now (bucket_of fixed_point after.0 key)

module _ (limiter : RateLimiter ℕ) (start now finish : ℤ) (enough : unit_token ≤ limiter.burst)
    (h : start ≤ℤ now) (k : now ≤ℤ finish) where
  own_credit :
      (key : Bytes)
      → Timely start (bucket_of fixed_point limiter key)
      → Spends key key limiter start now finish (allow_key fixed_point now limiter key)
  own_credit key t =
      let isolated = allow_key-Isolated fixed_point now limiter key in
      let found = allow_found fixed_point limiter now (bucket_of fixed_point limiter key) in
      let after = (allow_key fixed_point now limiter key).0 in
      let same = credit_same limiter after finish now (some found.0) isolated.2 isolated.3 in
      let (spent, timely) =
        allow_found-credit limiter finish enough start now (bucket_of fixed_point limiter key) h k
          t in
      rw (eq_bytes_refl key)
        (rw isolated.0 (rw isolated.1 (rw same (own_sum found.1 _ _ spent, timely))))

  other_credit :
      (key asked : Bytes)
      → eq_bytes asked key ≡ false
      → Timely start (bucket_of fixed_point limiter key)
      → Spends key asked limiter start now finish (allow_key fixed_point now limiter asked)
  other_credit key asked other t =
      let isolated = allow_key-Isolated fixed_point now limiter asked in
      let after = (allow_key fixed_point now limiter asked).0 in
      let bucket = bucket_of fixed_point limiter key in
      let same = credit_same limiter after finish now bucket isolated.2 isolated.3 in
      rw other (
        rw (isolated.4 key other) (
          rw same (
            other_sum (allow_key fixed_point now limiter asked).1 _ _
                (credit_later limiter finish start now bucket h k),
            Timely-later start now bucket h t,
          )))

  step_credit :
      (key asked : Bytes)
      → Timely start (bucket_of fixed_point limiter key)
      → Spends key asked limiter start now finish (allow_key fixed_point now limiter asked)
  step_credit key asked t = elim (Bool-cases (eq_bytes asked key)) [
    | inl same ↦
        subst (λ x. Spends key x limiter start now finish (allow_key fixed_point now limiter x))
          (sym (eq_of_eq_bytes asked key same)) (own_credit key t)
    | inr other ↦ other_credit key asked other t
  ]

-- All the calls.
count_credit :
    (key : Bytes) (limiter : RateLimiter ℕ) (start finish : ℤ) (calls : List (ℤ × Bytes))
    → unit_token ≤ limiter.burst
    → Within start finish calls
    → Timely start (bucket_of fixed_point limiter key)
    → count_allowed key limiter calls * unit_token
      ≤ credit limiter finish start (bucket_of fixed_point limiter key)
unfolding count_allowed
count_credit key limiter start finish [] enough w t = omega arith
count_credit key limiter start finish ((now, asked) ∷ calls) enough (h, w) t =
    let ends = Within_ends now finish calls w in
    let (spent, later) = step_credit limiter start now finish enough h ends key asked t in
    let after = (allow_key fixed_point now limiter asked).0 in
    let burst = (allow_key-Isolated fixed_point now limiter asked).3 in
    counted (allow_key fixed_point now limiter asked).1 (eq_bytes asked key)
      (count_allowed key after calls) (credit after finish now (bucket_of fixed_point after key))
      (credit limiter finish start (bucket_of fixed_point limiter key))
      (count_credit key after now finish calls (rw burst enough) w later) spent

-- A limiter that was made of a configuration.
abbrev fresh : RateLimitConfig ℕ → RateLimiter ℕ
fresh cfg = record {
  rate = cfg.requests_per_second;
  burst = pos_part cfg.burst * unit_token;
  shards = λ i. [];
}

new_rate_limiter-fresh :
    (cfg : RateLimitConfig ℕ) (limiter : RateLimiter ℕ)
    → new_rate_limiter fixed_point cfg ≡ ok limiter
    → (limiter ≡ fresh cfg) × (0 < pos_part cfg.burst)
unfolding new_rate_limiter
new_rate_limiter-fresh cfg limiter made = ground (arith, made)

fresh_bound :
    (cfg : RateLimitConfig ℕ) (key : Bytes) (start finish : ℤ) (calls : List (ℤ × Bytes))
    → 0 < pos_part cfg.burst
    → Within start finish calls
    → count_allowed key (fresh cfg) calls * unit_token
      ≤ pos_part cfg.burst * unit_token
        + refilled cfg.requests_per_second (pos_part (finish -ℤ start))
unfolding bucket_of find_bucket credit Timely
fresh_bound cfg key start finish calls h w =
    count_credit key (fresh cfg) start finish calls (omega (arith, h)) w tt

-- Over any calls at times in order between `start` and `finish`, in fixed-point arithmetic in place
-- of float64, a new limiter lets through no more requests of one key than the burst and what the rate
-- refills between the two times, whatever other keys ask for.
pub allowed_bound :
    (cfg : RateLimitConfig ℕ) (limiter : RateLimiter ℕ) (key : Bytes) (start finish : ℤ)
    (calls : List (ℤ × Bytes))
    → new_rate_limiter fixed_point cfg ≡ ok limiter
    → Within start finish calls
    → count_allowed key limiter calls * unit_token
      ≤ pos_part cfg.burst * unit_token
        + refilled cfg.requests_per_second (pos_part (finish -ℤ start))
unfolding new_rate_limiter
allowed_bound cfg limiter key start finish calls made w =
    let (same, positive) = new_rate_limiter-fresh cfg limiter made in
    rw same (fresh_bound cfg key start finish calls positive w)
