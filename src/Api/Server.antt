-- ===== src/Api/Server.antt =====
-- internal/api/server.go and grpc_server.go: a request on its way through the check of its key, the
-- rate limit and the handler. Each server has a limiter of its own. The world behind the limiter is
-- that of the handler, and `clock` reads the time in it.
use go_transaction_control_p.Api.Handler.{Status}
use go_transaction_control_p.Prelude.Int.{ℤ}
use go_transaction_control_p.Api.RateLimiter.{
  limit_middleware, limit_interceptor, new_rate_limiter, RateLimiter, RateLimitError,
  RateLimitConfig, Floats,
}
use go_transaction_control_p.Api.Auth.{
  auth_middleware, auth_interceptor, answered, new_api_key_authenticator, Reply, AuthError,
}
use go_transaction_control_p.Prelude.{Option, Result, Bytes, List, ok, err}

pub data ServerError : Type 0 where
  bad_keys : AuthError → ServerError
  bad_rate_limit : RateLimitError → ServerError

unfoldable pub limiter_for :
    {F : Type 0}
    → List Bytes
    → Result RateLimitError (RateLimiter F)
    → Result ServerError (List Bytes × RateLimiter F)
limiter_for keys (err e) = err (bad_rate_limit e)
limiter_for keys (ok limiter) = ok (keys, limiter)

unfoldable pub keys_checked :
    {F : Type 0}
    → Floats F
    → RateLimitConfig F
    → Result AuthError (List Bytes)
    → Result ServerError (List Bytes × RateLimiter F)
unfolding limiter_for
keys_checked floats cfg (err e) = err (bad_keys e)
keys_checked floats cfg (ok keys) = limiter_for keys (new_rate_limiter floats cfg)

-- The keys and the limiter of NewServer, and of NewGRPCServer.
unfoldable pub new_server :
    {F : Type 0}
    → Floats F
    → List Bytes
    → RateLimitConfig F
    → Result ServerError (List Bytes × RateLimiter F)
unfolding keys_checked
new_server floats api_keys cfg = keys_checked floats cfg (new_api_key_authenticator api_keys)

module _ {F W : Type 0} (floats : Floats F) (clock : W → ℤ) (keys : List Bytes) where
  -- A handler behind the limiter.
  unfoldable pub behind : (W → W × Status) → RateLimiter F × W → (RateLimiter F × W) × Reply Status
  behind handle (limiter, w) = let (w', status) = handle w in ((limiter, w'), answered status)

  -- The route POST /v1/transactions, given the Authorization header and the handler on the request.
  unfoldable pub serve_http :
      (W → W × Status) → RateLimiter F × W → Bytes → (RateLimiter F × W) × Reply Status
  unfolding behind
  serve_http handle s header =
      auth_middleware keys (λ x. limit_middleware floats clock (behind handle) x header) s header

  -- A unary call through the chained interceptors.
  unfoldable pub serve_grpc :
      (W → W × Status)
      → RateLimiter F × W
      → Bytes
      → Option (List Bytes)
      → (RateLimiter F × W) × Reply Status
  unfolding behind
  serve_grpc handle s method metadata =
      auth_interceptor keys (λ x. limit_interceptor floats clock (behind handle) x method metadata)
        s method metadata
