-- ===== src/Api/Auth.antt =====
-- internal/api/auth_interceptor.go: the bearer-token check before both transports.
use Prim.Native.Nat.{bit_or}
use go_transaction_control_p.Ledger.Amount.{is_empty}
use go_transaction_control_p.Prelude.{
  ◌&&◌, ◌>>◌, ◌==◌, fail_if, eq_bytes, if◌then◌else◌, codes, Result, Bool, ℕ, Option, List, Bytes,
  true, false, ok, err, none, some, [], ◌∷◌,
}

-- strings.CutPrefix, of which only whether the prefix is there and the rest are kept.
unfoldable pub cut_prefix : Bytes → Bytes → Option Bytes
cut_prefix s [] = some s
cut_prefix [] (p ∷ prefix) = none
cut_prefix (c ∷ s) (p ∷ prefix) = let rest = cut_prefix s prefix in if c == p then rest else none

-- strings.HasPrefix.
unfoldable pub has_prefix : Bytes → Bytes → Bool
has_prefix s [] = true
has_prefix [] (p ∷ prefix) = false
has_prefix (c ∷ s) (p ∷ prefix) = (c == p) && has_prefix s prefix

abbrev pub health_check_service_prefix : Bytes
health_check_service_prefix = codes "/grpc.health.v1.Health/"

unfoldable pub bearer_token : Bytes → Option Bytes
unfolding cut_prefix
bearer_token header = cut_prefix header (codes "Bearer ")

-- The values of "authorization" in a context's metadata; `none` for a context without metadata.
unfoldable pub bearer_token_from_context : Option (List Bytes) → Option Bytes
unfolding bearer_token
bearer_token_from_context none = none
bearer_token_from_context (some []) = none
bearer_token_from_context (some (value ∷ values)) = bearer_token value

pub data AuthError : Type 0 where
  no_keys empty_key : AuthError

-- The loop of newAPIKeyAuthenticator.
unfoldable pub check_keys : List Bytes → Result AuthError (Unit {0})
check_keys [] = ok tt
check_keys (key ∷ keys) = fail_if (is_empty key) empty_key >> check_keys keys

-- The keys that the authenticator accepts.
unfoldable pub new_api_key_authenticator : List Bytes → Result AuthError (List Bytes)
unfolding check_keys
new_api_key_authenticator [] = err no_keys
new_api_key_authenticator (key ∷ keys) = check_keys (key ∷ keys) >> ok (key ∷ keys)

-- subtle.ConstantTimeCompare.
unfoldable pub constant_time_compare : Bytes → Bytes → ℕ
constant_time_compare s t = if eq_bytes s t then 1 else 0

-- The loop of validate, at what `match` is before it.
unfoldable pub match_keys : ℕ → Bytes → List Bytes → ℕ
unfolding constant_time_compare
match_keys matched token [] = matched
match_keys matched token (key ∷ keys) =
    match_keys (bit_or matched (constant_time_compare token key)) token keys

-- apiKeyAuthenticator.validate.
unfoldable pub validate_token : List Bytes → Bytes → Bool
unfolding match_keys
validate_token keys token = match_keys 0 token keys == 1

unfoldable pub validate_found : List Bytes → Option Bytes → Bool
unfolding validate_token
validate_found keys none = false
validate_found keys (some token) = validate_token keys token

-- authenticate.
unfoldable pub authenticate : List Bytes → Option (List Bytes) → Bool
unfolding validate_found
authenticate keys metadata = validate_found keys (bearer_token_from_context metadata)

-- A reply of the stack of handlers: a refusal of one of the checks, or what is behind them.
pub data Reply (A : Type 0) : Type 0 where
  unauthenticated too_many_requests : Reply A
  answered : A → Reply A

module _ {S A : Type 0} (keys : List Bytes) where
  -- middleware, given the Authorization header.
  unfoldable pub auth_middleware : (S → S × Reply A) → S → Bytes → S × Reply A
  auth_middleware next s header =
      if validate_found keys (bearer_token header) then next s else (s, unauthenticated)

  -- unaryInterceptor, given the full method name and the metadata.
  unfoldable pub auth_interceptor :
      (S → S × Reply A) → S → Bytes → Option (List Bytes) → S × Reply A
  auth_interceptor next s method metadata =
      if has_prefix method health_check_service_prefix
      then next s
      else if authenticate keys metadata
      then next s
      else (s, unauthenticated)
