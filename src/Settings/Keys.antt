-- ===== src/Settings/Keys.antt =====
-- The keys of cmd/ingestion/main.go at the authenticator of internal/api/auth_interceptor.go.
use go_transaction_control_p.Prelude.Spaces.{split, trim_space}
use go_transaction_control_p.Ledger.Amount.{is_empty}
use mathlib.Core.Path.{subst}
use go_transaction_control_p.Settings.{non_empty_pieces, checked_keys, api_keys_from_env}
use go_transaction_control_p.Api.Auth.{new_api_key_authenticator, check_keys}
use go_transaction_control_p.Prelude.{
  if_false, if_true, codes, Bool-cases, ◌≡◌, List, Bytes, ok, [], ◌∷◌, inl, inr, refl,
}

check_keys-non_empty_pieces : (pieces : List Bytes) → check_keys (non_empty_pieces pieces) ≡ ok tt
unfolding check_keys non_empty_pieces
check_keys-non_empty_pieces [] = refl
check_keys-non_empty_pieces (piece ∷ pieces) = elim (Bool-cases (is_empty (trim_space piece))) [
  | inl e ↦ rw e (check_keys-non_empty_pieces pieces)
  | inr e ↦ rw e (rw e (check_keys-non_empty_pieces pieces))
]

accepted_keys :
    (keys taken : List Bytes)
    → check_keys keys ≡ ok tt
    → checked_keys keys ≡ ok taken
    → new_api_key_authenticator taken ≡ ok taken
unfolding checked_keys new_api_key_authenticator
accepted_keys [] taken c h = absurd cc
accepted_keys (key ∷ keys) taken c h =
    let same : (key ∷ keys) ≡ taken = cc h in
    subst (λ x. new_api_key_authenticator x ≡ ok x) same (rw c refl)

-- The authenticator accepts every list of keys that apiKeysFromEnv gives: none is empty, and there is
-- at least one.
pub api_keys_from_env-accepted :
    (env : Bytes → Bytes) (keys : List Bytes)
    → api_keys_from_env env ≡ ok keys
    → new_api_key_authenticator keys ≡ ok keys
unfolding api_keys_from_env
api_keys_from_env-accepted env keys h =
    let raw = env (codes "INGESTION_API_KEYS") in
    elim (Bool-cases (is_empty raw)) [
      | inl e ↦ absurd (cc (if_true _ _ _ _ e h))
      | inr e ↦
          accepted_keys (non_empty_pieces (split b',' raw)) keys
            (check_keys-non_empty_pieces (split b',' raw)) (if_false _ _ _ _ e h)
    ]
