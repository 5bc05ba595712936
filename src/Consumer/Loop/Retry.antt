-- ===== src/Consumer/Loop/Retry.antt =====
-- The bounded retry of internal/processor/kafka/consumer.go, reconcileWithRetry.
use go_transaction_control_p.Prelude.Int.{pos_part, negsuc, pos, ◌+ℤ◌, ℤ}
use go_transaction_control_p.Prelude.Word.{wrap64}
use go_transaction_control_p.Prelude.{
  refl, zero, inr, ◌≤◌, ◌∙◌, ◌-◌, true, arith, Bool-cases, ◌⊎◌, ◌^◌, ◌<◌, ◌+◌, inl, false, ap, suc,
  some, none, ◌≡◌, Option, Bytes, ℕ,
}
use go_transaction_control_p.Ledger.Types.{Transaction}
use go_transaction_control_p.Consumer.Loop.{
  attempt_limit, retry_loop, reconcile_with_retry, after_attempt, Environment,
}

module _ {W : Type 0} (env : Environment W) where
  -- `n` attempts at a transaction, each but the last one failed with the context still alive.
  pub data Tries (txn : Transaction) : W → ℕ → W → Option Bytes → Type 0 where
    last : {w w' : W} {e : Option Bytes} → env.reconcile w txn ≡ (w', e) → Tries txn w 1 w' e
    again :
        {w mid w' : W} {n : ℕ} {e : Option Bytes} (reason : Bytes)
        → env.reconcile w txn ≡ (mid, some reason)
        → env.cancelled mid ≡ false
        → Tries txn mid n w' e
        → Tries txn w (suc n) w' e

  -- Why the attempts ended: success, a cancelled context, or no attempt left.
  abbrev pub Ended : ℕ → ℕ → W → Option Bytes → Type 0
  Ended n rounds w e = (e ≡ none) ⊎ ((env.cancelled w ≡ true) ⊎ (n ≡ rounds))

  -- What the loop does with `suc rounds` rounds left, when attempt `suc done` comes next.
  abbrev pub Retried : Transaction → ℕ → ℕ → W → W × ℤ × Option Bytes → Type 0
  Retried txn rounds done w (w', attempts, e) =
      (n : ℕ) × Tries txn w n w' e
      × (attempts ≡ pos (done + n))
      × (n ≤ rounds)
      × Ended n rounds w' e

  Retried-again :
      (txn : Transaction) (rounds done : ℕ) (w mid : W) (reason : Bytes) (x : W × ℤ × Option Bytes)
      → env.reconcile w txn ≡ (mid, some reason)
      → env.cancelled mid ≡ false
      → Retried txn rounds (suc done) mid x
      → Retried txn (suc rounds) done w x
  Retried-again txn rounds done w mid reason (w', attempts, e) r c (n, tries, a, l, ended) = (
    suc n,
    again reason r c tries,
    a ∙ ap pos (omega arith),
    omega arith,
    (elim ended [ inl s ↦ inl s | inr (inl s) ↦ inr (inl s) | inr (inr s) ↦ inr (inr (ap suc s)) ]),
  )

  settled_at_once :
      (txn : Transaction) (rounds done : ℕ) (w w' : W) (e : Option Bytes)
      → env.reconcile w txn ≡ (w', e)
      → Ended 1 (suc rounds) w' e
      → Retried txn (suc rounds) done w (w', pos (suc done), e)
  settled_at_once txn rounds done w w' e r ended =
      (1, last r, ap pos (omega arith), omega arith, ended)

  last_attempt-Retried :
      (txn : Transaction) (done : ℕ) (w : W) (x : W × Option Bytes)
      → env.reconcile w txn ≡ x
      → attempt_limit env ≡ pos (suc done)
      → Retried txn 1 done w
          (after_attempt env (suc done) x (λ mid reason. (mid, attempt_limit env, some reason)))
  unfolding after_attempt
  last_attempt-Retried txn done w (w', none) r l = settled_at_once txn 0 done w w' none r (inl refl)
  last_attempt-Retried txn done w (w', some reason) r l = elim (Bool-cases (env.cancelled w')) [
    | inl c ↦ rw c (settled_at_once txn 0 done w w' (some reason) r (inr (inl c)))
    | inr c ↦ rw c (rw l (settled_at_once txn 0 done w w' (some reason) r (inr (inr refl))))
  ]

  after_attempt-Retried :
      (txn : Transaction) (rounds done : ℕ) (w : W) (x : W × Option Bytes)
      (next_tries : W → Bytes → W × ℤ × Option Bytes)
      → env.reconcile w txn ≡ x
      → ((mid : W) (reason : Bytes) → Retried txn rounds (suc done) mid (next_tries mid reason))
      → Retried txn (suc rounds) done w (after_attempt env (suc done) x next_tries)
  unfolding after_attempt
  after_attempt-Retried txn rounds done w (w', none) next_tries r ih =
      settled_at_once txn rounds done w w' none r (inl refl)
  after_attempt-Retried txn rounds done w (w', some reason) next_tries r ih =
      elim (Bool-cases (env.cancelled w')) [
        | inl c ↦ rw c (settled_at_once txn rounds done w w' (some reason) r (inr (inl c)))
        | inr c ↦
            rw c
              (Retried-again txn rounds done w w' reason (next_tries w' reason) r c (ih w' reason))
      ]

  retry_loop-Retried :
      (txn : Transaction) (rounds done : ℕ) (w : W) (before : Option Bytes)
      → attempt_limit env ≡ pos (done + suc rounds)
      → Retried txn (suc rounds) done w (retry_loop env (suc rounds) (suc done) w txn before)
  unfolding retry_loop
  retry_loop-Retried txn zero done w before l =
      last_attempt-Retried txn done w (env.reconcile w txn) refl (l ∙ ap pos (omega arith))
  retry_loop-Retried txn (suc rounds) done w before l =
      after_attempt-Retried txn (suc rounds) done w (env.reconcile w txn) _ refl (λ mid reason.
        retry_loop-Retried txn rounds (suc done) mid (some reason) (l ∙ ap pos (omega arith)))

  limit_of : (n : ℕ) → env.max_retries ≡ pos n → n < 2 ^ 63 - 1 → attempt_limit env ≡ pos (suc n)
  unfolding wrap64 ◌+ℤ◌
  limit_of n e h = rw e (ground arith)

  -- With a retry bound of n, below the largest int64, a transaction gets between one and n + 1
  -- attempts, and the number of them is returned with the last one's error. Attempts go on until one
  -- succeeds, the context is cancelled, or all n + 1 are made.
  pub reconcile_with_retry-Retried :
      (n : ℕ) (w : W) (txn : Transaction)
      → env.max_retries ≡ pos n
      → n < 2 ^ 63 - 1
      → Retried txn (suc n) 0 w (reconcile_with_retry env w txn)
  unfolding reconcile_with_retry
  reconcile_with_retry-Retried n w txn e h =
      let l = limit_of n e h in
      rw (ap pos_part l) (retry_loop-Retried txn n 0 w none (l ∙ ap pos (omega arith)))

  -- With a retry bound of the largest int64, no attempt is made and no error is returned, as
  -- after a success.
  pub reconcile_with_retry_skips :
      (w : W) (txn : Transaction)
      → env.max_retries ≡ pos (2 ^ 63 - 1)
      → reconcile_with_retry env w txn ≡ (w, negsuc (2 ^ 63 - 1), none)
  unfolding reconcile_with_retry wrap64 ◌+ℤ◌
  reconcile_with_retry_skips w txn e = rw e refl
