-- ===== src/Api/Admitted.antt =====
-- Who reaches the handlers of the two servers (internal/api).
use mathlib.Core.Path.{subst}
use go_transaction_control_p.Api.RateLimiter.Buckets.{allow_key-Costs, Costs}
use go_transaction_control_p.Api.Keys.{validate_token_iff}
use go_transaction_control_p.Api.Server.{behind, serve_http, serve_grpc}
use go_transaction_control_p.Api.Handler.{Status}
use go_transaction_control_p.Prelude.Int.{ℤ}
use go_transaction_control_p.Api.RateLimiter.{
  limit_middleware, limit_interceptor, allow_key, limit_next, limit_found, RateLimiter, Floats,
}
use go_transaction_control_p.Api.Auth.{
  bearer_token_from_context, health_check_service_prefix, has_prefix, bearer_token, authenticate,
  unauthenticated, too_many_requests, answered, auth_middleware, auth_interceptor, Reply,
  validate_found,
}
use mathlib.Core.List.{Memᴰ}
use go_transaction_control_p.Prelude.{
  Bool-cases, ◌⊎◌, some_inj, if◌then◌else◌, ◌≡◌, Option, Bytes, List, true, false, none, some, inl,
  inr, refl,
}

-- A token that was found and is one of the keys.
abbrev pub Presented : List Bytes → Option Bytes → Bytes → Type 0
Presented keys found token = (found ≡ some token) × Memᴰ token keys

validate_found_token :
    (keys : List Bytes) (found : Option Bytes)
    → validate_found keys found ≡ true
    → (token : Bytes) × Presented keys found token
unfolding validate_found
validate_found_token keys none h = absurd cc
validate_found_token keys (some token) h = (token, (refl, (validate_token_iff keys token).0 h))

validate_found_none :
    (keys : List Bytes) (found : Option Bytes)
    → validate_found keys found ≡ false
    → ¬ ((token : Bytes) × Presented keys found token)
unfolding validate_found
validate_found_none keys none h (token, (e, m)) = absurd cc
validate_found_none keys (some token') h (token, (e, m)) =
    absurd (cc ((validate_token_iff keys token).1 m, some_inj e, h))

module _ {F W : Type 0} (floats : Floats F) (clock : W → ℤ) (keys : List Bytes)
    (handle : W → W × Status) where
  abbrev pub Refused :
      RateLimiter F × W → Option Bytes → (RateLimiter F × W) × Reply Status → Type 0
  Refused s found r =
      (¬ ((token : Bytes) × Presented keys found token)) × (r ≡ (s, unauthenticated))

  abbrev pub Limited :
      RateLimiter F × W → Option Bytes → (RateLimiter F × W) × Reply Status → Type 0
  Limited s found r =
      (token : Bytes) × (after : RateLimiter F) × Presented keys found token
      × Costs floats s.0 (clock s.1) token after false
      × (r ≡ ((after, s.1), too_many_requests))

  abbrev pub Reached :
      RateLimiter F × W → Option Bytes → (RateLimiter F × W) × Reply Status → Type 0
  Reached s found r =
      (token : Bytes) × (after : RateLimiter F) × Presented keys found token
      × Costs floats s.0 (clock s.1) token after true
      × (r ≡ ((after, (handle s.1).0), answered (handle s.1).1))

  -- What becomes of a request with the token that was found, if any.
  abbrev pub Admission :
      RateLimiter F × W → Option Bytes → (RateLimiter F × W) × Reply Status → Type 0
  Admission s found r = Refused s found r ⊎ (Limited s found r ⊎ Reached s found r)

  limited :
      (s : RateLimiter F × W) (token : Bytes)
      → Memᴰ token keys
      → Admission s
          (some token)
          (limit_found floats clock (behind floats clock keys handle) s (some token))
  unfolding limit_found limit_next behind
  limited (limiter, w) token m =
      let asked = allow_key floats (clock w) limiter token in
      let c = allow_key-Costs floats (clock w) limiter token in
      elim (Bool-cases asked.1) [
        | inl e ↦ inr (
            inr (
              token,
              asked.0,
              (refl, m),
              subst (Costs floats limiter (clock w) token asked.0) e c,
              rw e refl,
            ))
        | inr e ↦ inr (
            inl (
              token,
              asked.0,
              (refl, m),
              subst (Costs floats limiter (clock w) token asked.0) e c,
              rw e refl,
            ))
      ]

  admitted :
      (s : RateLimiter F × W) (found : Option Bytes)
      → Admission s found (
          if validate_found keys found
          then limit_found floats clock (behind floats clock keys handle) s found
          else (s, unauthenticated))
  admitted s found = elim (Bool-cases (validate_found keys found)) [
    | inl e ↦
        let (token, (same, m)) = validate_found_token keys found e in
        rw e (rw same (limited s token m))
    | inr e ↦ rw e (inl (validate_found_none keys found e, refl))
  ]

  -- A request over HTTP is refused with nothing changed exactly when its Authorization header carries
  -- no configured key behind "Bearer ". With one, it reaches the handler if that key has no bucket yet or
  -- the bucket holds a token, after what has come in since, and then it takes one token of that bucket;
  -- otherwise it is refused, the handler does not run and the bucket keeps its tokens. The buckets of
  -- all other keys and the limits stay as they were.
  pub serve_http-Admission :
      (s : RateLimiter F × W) (header : Bytes)
      → Admission s (bearer_token header) (serve_http floats clock keys handle s header)
  unfolding serve_http auth_middleware limit_middleware
  serve_http-Admission s header = admitted s (bearer_token header)

  -- A call over gRPC of a method outside the health service is treated the same, by the first value
  -- of its "authorization" metadata; a health check reaches its handler without a key and costs
  -- nothing.
  pub serve_grpc-Admission :
      (s : RateLimiter F × W) (method : Bytes) (metadata : Option (List Bytes))
      → ((has_prefix method health_check_service_prefix ≡ false)
          × Admission s
              (bearer_token_from_context metadata)
              (serve_grpc floats clock keys handle s method metadata))
        ⊎ ((has_prefix method health_check_service_prefix ≡ true)
            × (serve_grpc floats clock keys handle s method metadata
                ≡ ((s.0, (handle s.1).0), answered (handle s.1).1)))
  unfolding serve_grpc auth_interceptor limit_interceptor authenticate behind
  serve_grpc-Admission s method metadata =
      elim (Bool-cases (has_prefix method health_check_service_prefix)) [
        | inl e ↦ inr (e, rw e refl)
        | inr e ↦ inl (e, rw e (admitted s (bearer_token_from_context metadata)))
      ]
