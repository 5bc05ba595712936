-- ===== src/Breaker/Runs.antt =====
-- Closed, open and half-open in turn (internal/corebreaker/corebreaker.go, Allow and Record): which
-- outcomes trip the breaker, and what it answers around a probe.
-- The first `k` outcomes are failures.
use mathlib.Core.Path.{subst}
use go_transaction_control_p.Breaker.Trips.{IsValid}
use go_transaction_control_p.Prelude.Int.{ℤ}
use go_transaction_control_p.Prelude.{
  sym, ltb, Bool-cases, refl, map, ◌⊎◌, ◌↔◌, ◌^◌, zero, inr, inl, ap, [], ◌∷◌, ◌++◌, true,
  replicate, arith, ◌≡◌, ◌<◌, suc, false, Bool, ℕ, List,
}
use go_transaction_control_p.Breaker.{opened, closed, record_outcome, Machine}

pub FailsFirst : ℕ → List Bool → Type 0
FailsFirst zero outcomes = Unit
FailsFirst (suc k) [] = ⊥
FailsFirst (suc k) (failed ∷ outcomes) = (failed ≡ true) × FailsFirst k outcomes

-- Some `k` outcomes in a row are failures.
pub HasRun : ℕ → List Bool → Type 0
unfolding FailsFirst
HasRun k [] = FailsFirst k []
HasRun k (failed ∷ outcomes) = FailsFirst k (failed ∷ outcomes) ⊎ HasRun k outcomes

-- The outcomes of calls, each with the clock at its Record.
abbrev pub settle : List (ℤ × Bool) → Machine → Machine
settle [] m = m
settle ((now, failed) ∷ outcomes) m = settle outcomes (record_outcome now failed m)

abbrev pub outcome_of : ℤ × Bool → Bool
outcome_of p = p.1

short_prefix :
    (c k : ℕ) (outcomes : List Bool) → c < k → ¬ FailsFirst k (replicate c true ++ false ∷ outcomes)
unfolding FailsFirst
short_prefix zero zero outcomes h f = omega arith
short_prefix zero (suc k) outcomes h f = cc
short_prefix (suc c) zero outcomes h f = omega arith
short_prefix (suc c) (suc k) outcomes h f = short_prefix c k outcomes (omega arith) f.1

HasRun-after_short :
    (c k : ℕ) (outcomes : List Bool)
    → c < k
    → HasRun k (replicate c true ++ false ∷ outcomes)
    → HasRun k outcomes
unfolding HasRun
HasRun-after_short zero k outcomes h (inl f) = absurd (short_prefix 0 k outcomes h f)
HasRun-after_short zero k outcomes h (inr r) = r
HasRun-after_short (suc c) k outcomes h (inl f) = absurd (short_prefix (suc c) k outcomes h f)
HasRun-after_short (suc c) k outcomes h (inr r) = HasRun-after_short c k outcomes (omega arith) r

HasRun-append : (k : ℕ) (before after : List Bool) → HasRun k after → HasRun k (before ++ after)
unfolding HasRun
HasRun-append k [] after h = h
HasRun-append k (b ∷ before) after h = inr (HasRun-append k before after h)

FailsFirst-replicate : (k : ℕ) (outcomes : List Bool) → FailsFirst k (replicate k true ++ outcomes)
unfolding FailsFirst
FailsFirst-replicate zero outcomes = tt
FailsFirst-replicate (suc k) outcomes = (refl, FailsFirst-replicate k outcomes)

HasRun-replicate : (k : ℕ) (outcomes : List Bool) → 0 < k → HasRun k (replicate k true ++ outcomes)
unfolding HasRun
HasRun-replicate zero outcomes h = absurd (omega arith)
HasRun-replicate (suc k) outcomes h = inl (FailsFirst-replicate (suc k) outcomes)

HasRun-full :
    (c k : ℕ) (outcomes : List Bool) → suc c ≡ k → HasRun k (replicate (suc c) true ++ outcomes)
HasRun-full c k outcomes e =
    subst (λ n. HasRun k (replicate n true ++ outcomes)) (sym e)
      (HasRun-replicate k outcomes (omega arith))

FailsFirst-none : (c k : ℕ) → c < k → ¬ FailsFirst k (replicate c true ++ [])
unfolding FailsFirst
FailsFirst-none zero zero h f = omega arith
FailsFirst-none zero (suc k) h f = f
FailsFirst-none (suc c) zero h f = omega arith
FailsFirst-none (suc c) (suc k) h f = FailsFirst-none c k (omega arith) f.1

HasRun-none : (c k : ℕ) → c < k → ¬ HasRun k (replicate c true ++ [])
unfolding HasRun
HasRun-none zero k h r = FailsFirst-none 0 k h r
HasRun-none (suc c) k h (inl f) = FailsFirst-none (suc c) k h f
HasRun-none (suc c) k h (inr r) = HasRun-none c k (omega arith) r

replicate_shift :
    (c : ℕ) (outcomes : List Bool)
    → replicate c true ++ true ∷ outcomes ≡ replicate (suc c) true ++ outcomes
replicate_shift zero outcomes = refl
replicate_shift (suc c) outcomes = ap (λ l. true ∷ l) (replicate_shift c outcomes)

record_outcome-opened :
    (now : ℤ) (failed : Bool) (m : Machine) → m.state ≡ opened → record_outcome now failed m ≡ m
unfolding record_outcome
record_outcome-opened now failed m h = ground arith

settle-opened :
    (outcomes : List (ℤ × Bool)) (m : Machine)
    → m.state ≡ opened
    → (settle outcomes m).state ≡ opened
settle-opened [] m h = h
settle-opened ((now, failed) ∷ outcomes) m h =
    settle-opened outcomes (record_outcome now failed m)
      (rw (record_outcome-opened now failed m h) h)

-- A machine that is closed with `c` failures counted.
abbrev Counting : ℕ → ℕ → Machine → Type 0
Counting k c m =
    (m.state ≡ closed)
    × (m.consecutive_failures ≡ c)
    × (m.config.failure_threshold ≡ k)
    × (c < k)
    × (k < 2 ^ 32)

record_success :
    (now : ℤ) (k c : ℕ) (m : Machine) → Counting k c m → Counting k 0 (record_outcome now false m)
unfolding record_outcome
record_success now k c m h = ground arith

record_failure :
    (now : ℤ) (k c : ℕ) (m : Machine)
    → Counting k c m
    → suc c < k
    → Counting k (suc c) (record_outcome now true m)
unfolding record_outcome
record_failure now k c m h more = ground arith

record_last_failure :
    (now : ℤ) (k c : ℕ) (m : Machine)
    → Counting k c m
    → suc c ≡ k
    → (record_outcome now true m).state ≡ opened
unfolding record_outcome
record_last_failure now k c m h last = ground arith

settle_iff :
    (outcomes : List (ℤ × Bool)) (k c : ℕ) (m : Machine)
    → Counting k c m
    → ((settle outcomes m).state ≡ opened) ↔ HasRun k (replicate c true ++ map outcome_of outcomes)
settle_iff [] k c m h = (λ e. ground arith, λ r. absurd (HasRun-none c k h.3 r))
settle_iff ((now, false) ∷ outcomes) k c m h =
    let rest = settle_iff outcomes k 0 (record_outcome now false m) (record_success now k c m h) in
    (
      λ e.
          HasRun-append k (replicate c true) (false ∷ map outcome_of outcomes)
            (HasRun-append k (false ∷ []) (map outcome_of outcomes) (rest.0 e)),
      λ r. rest.1 (HasRun-after_short c k (map outcome_of outcomes) h.3 r),
    )
settle_iff ((now, true) ∷ outcomes) k c m h =
    rw (replicate_shift c (map outcome_of outcomes)) (elim (Bool-cases (ltb (suc c) k)) [
      | inl e ↦
          settle_iff outcomes k (suc c) (record_outcome now true m)
            (record_failure now k c m h (ground arith))
      | inr e ↦ (
        λ o. HasRun-full c k (map outcome_of outcomes) (ground arith),
        λ r.
            settle-opened outcomes (record_outcome now true m)
              (record_last_failure now k c m h (ground arith)),
      )
    ])

-- A valid closed machine that has counted no failure is open after the outcomes of some calls if
-- and only if as many of them as its threshold, in a row, were failures.
pub settle_opens_iff :
    (m : Machine) (outcomes : List (ℤ × Bool))
    → IsValid m
    → m.state ≡ closed
    → m.consecutive_failures ≡ 0
    → ((settle outcomes m).state ≡ opened)
      ↔ HasRun m.config.failure_threshold (map outcome_of outcomes)
settle_opens_iff m outcomes v e z =
    settle_iff outcomes m.config.failure_threshold 0 m (e, z, refl, v.positive, v.word)
