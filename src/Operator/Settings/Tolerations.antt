-- ===== src/Operator/Settings/Tolerations.antt =====
-- The tolerations that the operator reads (operator/cmd/main.go, tolerationsFromEnv).
use mathlib.Core.Path.{subst}
use go_transaction_control_p.Prelude.Spaces.{split, trim_space}
use go_transaction_control_p.Ledger.Amount.{is_empty}
use go_transaction_control_p.Operator.Settings.{
  op_equal, op_exists, cut_at, is_taint_effect, TolerationOperator, tolerations_from_env,
  toleration_of, read_tolerations, read_toleration, keyed_toleration, keep_toleration, Toleration,
}
use go_transaction_control_p.Prelude.{
  some_inj, if_false, if_true, Bool-cases, ◌≡◌, All, Option, List, Bytes, true, false, none, some,
  [], ◌∷◌, inl, inr, refl,
}

-- What Kubernetes takes: a key, one of the effects, and no value unless the operator compares it.
pub record IsToleration (t : Toleration) : Type 0 where
  pub keyed : is_empty t.key ≡ false
  pub known_effect : is_taint_effect t.effect ≡ true
  pub no_value : t.operator ≡ op_exists → t.value ≡ []

keyed_toleration-IsToleration :
    (key : Bytes) (operator : TolerationOperator) (value effect : Bytes) (t : Toleration)
    → is_taint_effect effect ≡ true
    → (operator ≡ op_exists → value ≡ [])
    → keyed_toleration key operator value effect ≡ some t
    → IsToleration t
unfolding keyed_toleration
keyed_toleration-IsToleration key operator value effect t e v h = elim (Bool-cases (is_empty key)) [
  | inl k ↦ absurd (cc (if_true _ _ _ _ k h))
  | inr k ↦
      subst IsToleration (some_inj (if_false _ _ _ _ k h))
        (record { keyed = k; known_effect = e; no_value = v })
]

toleration_of-IsToleration :
    (key_value effect : Bytes) (parts : Option (Bytes × Bytes)) (t : Toleration)
    → is_taint_effect effect ≡ true
    → toleration_of key_value effect parts ≡ some t
    → IsToleration t
unfolding toleration_of
toleration_of-IsToleration key_value effect none t e h =
    keyed_toleration-IsToleration (trim_space key_value) op_exists [] effect t e (λ _. refl) h
toleration_of-IsToleration key_value effect (some (key, value)) t e h =
    keyed_toleration-IsToleration (trim_space key) op_equal (trim_space value) effect t e
      (λ o. absurd (cc o)) h

read_toleration-IsToleration :
    (parts : Option (Bytes × Bytes)) (t : Toleration)
    → read_toleration parts ≡ some t
    → IsToleration t
unfolding read_toleration
read_toleration-IsToleration none t h = absurd cc
read_toleration-IsToleration (some (key_value, text)) t h =
    elim (Bool-cases (is_taint_effect (trim_space text))) [
      | inl e ↦
          toleration_of-IsToleration key_value (trim_space text) (cut_at b'=' key_value) t e
            (if_true _ _ _ _ e h)
      | inr e ↦ absurd (cc (if_false _ _ _ _ e h))
    ]

kept :
    (read : Option Toleration) (rest : List Toleration)
    → ((t : Toleration) → read ≡ some t → IsToleration t)
    → All IsToleration rest
    → All IsToleration (keep_toleration read rest)
unfolding keep_toleration
kept none rest f a = a
kept (some t) rest f a = (f t refl, a)

read_tolerations-IsToleration : (entries : List Bytes) → All IsToleration (read_tolerations entries)
unfolding read_tolerations
read_tolerations-IsToleration [] = tt
read_tolerations-IsToleration (entry ∷ entries) =
    let read = read_toleration (cut_at b':' (trim_space entry)) in
    kept read (read_tolerations entries)
      (read_toleration-IsToleration (cut_at b':' (trim_space entry)))
      (read_tolerations-IsToleration entries)

-- Whatever the variable holds, every toleration that is read from it has a key and one of the three
-- effects, and has a value only if its operator compares it.
pub tolerations_from_env-IsToleration :
    (env : Bytes → Bytes) (name : Bytes) → All IsToleration (tolerations_from_env env name)
unfolding tolerations_from_env
tolerations_from_env-IsToleration env name = elim (Bool-cases (is_empty (env name))) [
  | inl e ↦ rw e tt
  | inr e ↦ rw e (read_tolerations-IsToleration (split b',' (env name)))
]
