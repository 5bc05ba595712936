-- ===== src/Api/Keys.antt =====
-- Which tokens are accepted (internal/api/auth_interceptor.go).
use go_transaction_control_p.Api.Auth.{constant_time_compare, validate_token, match_keys}
use mathlib.Core.List.{Memᴰ}
use mathlib.Core.List.Memᴰ
use go_transaction_control_p.Prelude.{
  eq_bytes_iff, eq_of_eq_bytes, arith, ==_iff, eq_bytes, ◌↔◌, Bool-cases, ◌≡◌, Bytes, List, true,
  false, [], ◌∷◌, inl, inr, refl,
}

match_keys_matched : (token : Bytes) (keys : List Bytes) → match_keys 1 token keys ≡ 1
unfolding match_keys constant_time_compare
match_keys_matched token [] = refl
match_keys_matched token (key ∷ keys) = elim (Bool-cases (eq_bytes token key)) [
  | inl e ↦ rw e (match_keys_matched token keys)
  | inr e ↦ rw e (match_keys_matched token keys)
]

later :
    {A : Type 0} (token key : Bytes) (keys : List Bytes)
    → eq_bytes token key ≡ false
    → (Memᴰ token keys → A)
    → Memᴰ token (key ∷ keys)
    → A
later token key keys e f m = elim (Memᴰ.cases_cons m) [
  | inl same ↦ absurd (cc ((eq_bytes_iff token key).1 same, e))
  | inr m' ↦ f m'
]

match_keys_iff :
    (token : Bytes) (keys : List Bytes) → (match_keys 0 token keys ≡ 1) ↔ Memᴰ token keys
unfolding match_keys constant_time_compare
match_keys_iff token [] = (λ h. absurd (omega (arith, h)), λ m. absurd (Memᴰ.not-nil m))
match_keys_iff token (key ∷ keys) = elim (Bool-cases (eq_bytes token key)) [
  | inl e ↦ rw e (λ _. Memᴰ.head (eq_of_eq_bytes token key e), λ _. match_keys_matched token keys)
  | inr e ↦ rw e (
    λ h. Memᴰ.tail ((match_keys_iff token keys).0 h),
    later token key keys e (match_keys_iff token keys).1,
  )
]

-- A token is accepted exactly when it is one of the configured keys.
pub validate_token_iff :
    (keys : List Bytes) (token : Bytes) → (validate_token keys token ≡ true) ↔ Memᴰ token keys
unfolding validate_token
validate_token_iff keys token =
    let tested = ==_iff (match_keys 0 token keys) 1 in
    let found = match_keys_iff token keys in (λ h. found.0 (tested.0 h), λ m. tested.1 (found.1 m))
