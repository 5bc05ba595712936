-- ===== src/Api/RateLimiter/Buckets.antt =====
-- The buckets of different keys do not touch one another (internal/api/rate_limiter.go).
use go_transaction_control_p.Breaker.{time_sub}
use mathlib.Core.Path.{subst}
use go_transaction_control_p.Prelude.{
  true, none, Option, Bool, eq_of_eq_bytes, sym, ◌==◌, eq_bytes_refl,
}
use go_transaction_control_p.Prelude.Int.{pos, ℤ}
use go_transaction_control_p.Api.RateLimiter.{
  spend, refill, allow_bucket, shard_of, allow_found, TokenBucket, RateLimiter, set_bucket,
  put_bucket, bucket_of, allow_key, find_bucket, Floats,
}
use go_transaction_control_p.Prelude.{
  Bool-cases, ==_iff, ◌≡◌, eq_bytes, Bytes, List, false, some, [], ◌∷◌, inl, inr, refl,
}

module _ {F : Type 0} where
  find-put_same :
      (buckets : List (Bytes × TokenBucket F)) (key : Bytes) (bucket : TokenBucket F)
      → find_bucket (put_bucket buckets key bucket) key ≡ some bucket
  unfolding find_bucket put_bucket
  find-put_same [] key bucket = rw (eq_bytes_refl key) refl
  find-put_same ((k, old) ∷ buckets) key bucket = elim (Bool-cases (eq_bytes k key)) [
    | inl e ↦ rw e (rw e refl)
    | inr e ↦ rw e (rw e (find-put_same buckets key bucket))
  ]

  find-put_other :
      (buckets : List (Bytes × TokenBucket F)) (key other : Bytes) (bucket : TokenBucket F)
      → eq_bytes key other ≡ false
      → find_bucket (put_bucket buckets key bucket) other ≡ find_bucket buckets other
  unfolding find_bucket put_bucket
  find-put_other [] key other bucket h = rw h refl
  find-put_other ((k, old) ∷ buckets) key other bucket h = elim (Bool-cases (eq_bytes k key)) [
    | inl e ↦
        let h' : eq_bytes k other ≡ false =
          subst (λ x. eq_bytes x other ≡ false) (sym (eq_of_eq_bytes k key e)) h in
        rw e (rw h' refl)
    | inr e ↦ rw e (rw (find-put_other buckets key other bucket h) refl)
  ]

  module _ (floats : Floats F) where
    set_bucket_same :
        (limiter : RateLimiter F) (key : Bytes) (bucket : TokenBucket F)
        → bucket_of floats (set_bucket floats limiter key bucket) key ≡ some bucket
    unfolding bucket_of set_bucket
    set_bucket_same limiter key bucket =
        rw ((==_iff (shard_of key) (shard_of key)).1 refl)
          (find-put_same (limiter.shards (shard_of key)) key bucket)

    set_bucket_other :
        (limiter : RateLimiter F) (key other : Bytes) (bucket : TokenBucket F)
        → eq_bytes key other ≡ false
        → bucket_of floats (set_bucket floats limiter key bucket) other
          ≡ bucket_of floats limiter other
    unfolding bucket_of set_bucket
    set_bucket_other limiter key other bucket h =
        elim (Bool-cases (shard_of other == shard_of key)) [
          | inl e ↦ rw e (find-put_other (limiter.shards (shard_of other)) key other bucket h)
          | inr e ↦ rw e refl
        ]

    -- A call decides by the bucket of its own key, which it updates, and leaves the bucket of every
    -- other key and the limits alone.
    pub allow_key-Isolated :
        (now : ℤ) (limiter : RateLimiter F) (key : Bytes)
        → let found = allow_found floats limiter now (bucket_of floats limiter key) in
          let after = allow_key floats now limiter key in
          (after.1 ≡ found.1)
          × (bucket_of floats after.0 key ≡ some found.0)
          × (after.0.rate ≡ limiter.rate)
          × (after.0.burst ≡ limiter.burst)
          × ((other : Bytes)
              → eq_bytes key other ≡ false
              → bucket_of floats after.0 other ≡ bucket_of floats limiter other)
    unfolding allow_key set_bucket
    allow_key-Isolated now limiter key =
        let found = allow_found floats limiter now (bucket_of floats limiter key) in
        (
          refl,
          set_bucket_same limiter key found.0,
          refl,
          refl,
          λ other h. set_bucket_other limiter key other found.0 h,
        )

    -- What a bucket holds at a time: its tokens and what has come in since, up to the burst.
    abbrev pub available : RateLimiter F → ℤ → TokenBucket F → F
    available limiter now bucket = floats.least limiter.burst (
        floats.add bucket.tokens
          (floats.mul (floats.seconds (time_sub now bucket.last_refill)) limiter.rate))

    -- The bucket that a call of a key leaves, and whether the call is let through: the first call of
    -- a key takes one of the tokens of a full bucket; a later one takes one of the available tokens,
    -- and is refused where there is less than one, which costs nothing.
    pub data Asks (limiter : RateLimiter F) (now : ℤ) (key : Bytes)
        : Option (TokenBucket F) → Bool → Type 0 where
      opens :
          bucket_of floats limiter key ≡ none
          → Asks limiter now key
              (some (record {
                tokens = floats.sub limiter.burst (floats.of_int (pos 1));
                last_refill = now;
              }))
              true
      takes :
          (bucket : TokenBucket F)
          → bucket_of floats limiter key ≡ some bucket
          → floats.less (available limiter now bucket) (floats.of_int (pos 1)) ≡ false
          → Asks limiter now key
              (some (record {
                tokens = floats.sub (available limiter now bucket) (floats.of_int (pos 1));
                last_refill = now;
              }))
              true
      lacks :
          (bucket : TokenBucket F)
          → bucket_of floats limiter key ≡ some bucket
          → floats.less (available limiter now bucket) (floats.of_int (pos 1)) ≡ true
          → Asks limiter now key
              (some (record { tokens = available limiter now bucket; last_refill = now }))
              false

    -- The same of the limiter, whose other buckets and limits stay.
    abbrev pub Costs : RateLimiter F → ℤ → Bytes → RateLimiter F → Bool → Type 0
    Costs limiter now key after allowed =
        Asks limiter now key (bucket_of floats after key) allowed
        × (after.rate ≡ limiter.rate)
        × (after.burst ≡ limiter.burst)
        × ((other : Bytes)
            → eq_bytes key other ≡ false
            → bucket_of floats after other ≡ bucket_of floats limiter other)

    allow_found-Asks :
        (limiter : RateLimiter F) (now : ℤ) (key : Bytes) (found : Option (TokenBucket F))
        → bucket_of floats limiter key ≡ found
        → let answer = allow_found floats limiter now found in
          Asks limiter now key (some answer.0) answer.1
    unfolding allow_found allow_bucket refill spend
    allow_found-Asks limiter now key none e = opens e
    allow_found-Asks limiter now key (some bucket) e =
        elim (Bool-cases (floats.less (available limiter now bucket) (floats.of_int (pos 1)))) [
          | inl h ↦ rw h (lacks bucket e h)
          | inr h ↦ rw h (takes bucket e h)
        ]

    pub allow_key-Costs :
        (now : ℤ) (limiter : RateLimiter F) (key : Bytes)
        → let after = allow_key floats now limiter key in Costs limiter now key after.0 after.1
    allow_key-Costs now limiter key =
        let (allowed, kept, rate, burst, others) = allow_key-Isolated now limiter key in
        let asked = allow_found-Asks limiter now key (bucket_of floats limiter key) refl in
        (rw allowed (rw kept asked), rate, burst, others)
