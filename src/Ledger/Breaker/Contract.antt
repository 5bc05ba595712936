-- ===== src/Ledger/Breaker/Contract.antt =====
-- The breakers of internal/ledger/breaker.go keep the contract of the repositories behind them.
use go_transaction_control_p.Breaker.{probe_bound, allow, Machine}
use go_transaction_control_p.Ledger.Types.{
  stale_reconciled_state, not_found, duplicate_event, circuit_open, ReconciledState, Transaction,
  RepositoryError,
}
use go_transaction_control_p.Prelude.{
  [], ◌∷◌, refl, ◌∙◌, ◌⊎◌, sym, inr, Bool-cases, inl, err, List, ◌≡◌, Bytes, Result, Option,
}
use go_transaction_control_p.Ledger.Breaker.{
  transaction_breaker, state_breaker, guard, breaker_upsert, breaker_insert,
  breaker_get_by_event_id, breaker_get, Guarded,
}
use go_transaction_control_p.Prelude.Int.{ℤ}
use go_transaction_control_p.Ledger.Repository.{
  IsStateTable, IsLedger, TransactionRepository, ReconciledStateRepository, Tables,
}

module _ {S A : Type 0} (clock : S → ℤ) (call : Option ℤ → S → S × Result RepositoryError A) where
  -- A guarded call fails fast and leaves the store, or is a call of the wrapped repository.
  abbrev pub GuardOutcome : S → S × (Machine × Result RepositoryError A) → Type 0
  GuardOutcome s answer =
      ((answer.0 ≡ s) × (answer.1.1 ≡ err circuit_open))
      ⊎ ((bound : Option ℤ) × (answer.0 ≡ (call bound s).0) × (answer.1.1 ≡ (call bound s).1))

  pub guard-cases :
      (ignored : List RepositoryError) (s : S) (machine : Machine)
      → GuardOutcome s (guard clock call ignored s machine)
  unfolding guard
  guard-cases ignored s machine = elim (Bool-cases (allow (clock s) machine).1.0) [
    | inl e ↦
        rw e
          (inr (probe_bound (allow (clock s) machine).0 (allow (clock s) machine).1.1, refl, refl))
    | inr e ↦ rw e (inl (refl, refl))
  ]

-- The tables behind the breakers.
abbrev pub guarded_tables : {S : Type 0} → Tables S → Tables (Guarded S)
guarded_tables t = record { row = λ g. t.row g.store; saved = λ g. t.saved g.store }

module _ {S : Type 0} (clock : S → ℤ) (t : Tables S)
    (next : Option ℤ → TransactionRepository S) where
  abbrev insert_call : Transaction → Option ℤ → S → S × Result RepositoryError Transaction
  insert_call txn bound s = (next bound).insert s txn

  insert-cases :
      (g : Guarded S) (txn : Transaction)
      → (((breaker_insert clock next g txn).0.store ≡ g.store)
          × ((breaker_insert clock next g txn).1 ≡ err circuit_open))
        ⊎ ((bound : Option ℤ) × ((breaker_insert clock next g txn).0.store
              ≡ ((next bound).insert g.store txn).0)
            × ((breaker_insert clock next g txn).1 ≡ ((next bound).insert g.store txn).1))
  unfolding breaker_insert
  insert-cases g txn =
      guard-cases clock (insert_call txn) (duplicate_event ∷ []) g.store g.transactions_machine

  lookup-cases :
      (g : Guarded S) (event : Bytes)
      → (((breaker_get_by_event_id clock next g event).0.store ≡ g.store)
          × ((breaker_get_by_event_id clock next g event).1 ≡ err circuit_open))
        ⊎ ((bound : Option ℤ) × ((breaker_get_by_event_id clock next g event).0.store
              ≡ ((next bound).get_by_event_id g.store event).0)
            × ((breaker_get_by_event_id clock next g event).1
                ≡ ((next bound).get_by_event_id g.store event).1))
  unfolding breaker_get_by_event_id
  lookup-cases g event =
      guard-cases clock (λ bound s. (next bound).get_by_event_id s event) (not_found ∷ []) g.store
        g.transactions_machine

  -- A breaker before a repository that keeps the ledger's contract, whatever bound a call gets,
  -- keeps it too.
  pub transaction_breaker-IsLedger :
      ((bound : Option ℤ) → IsLedger t (next bound))
      → IsLedger (guarded_tables t) (transaction_breaker clock next)
  transaction_breaker-IsLedger h = record {
    insert_keeps_rows = λ g txn event r e. elim (insert-cases g txn) [
      | inl q ↦ rw q.0 e
      | inr (bound, p, q) ↦ rw p ((h bound).insert_keeps_rows g.store txn event r e)
    ];
    insert_keeps_saved = λ g txn tenant instrument. elim (insert-cases g txn) [
      | inl q ↦ rw q.0
      | inr (bound, p, q) ↦ rw p ((h bound).insert_keeps_saved g.store txn tenant instrument)
    ];
    insert_ok = λ g txn r e. elim (insert-cases g txn) [
      | inl q ↦ absurd (cc)
      | inr (bound, p, q) ↦ rw p ((h bound).insert_ok g.store txn r (sym q ∙ e))
    ];
    lookup_keeps_rows = λ g event other. elim (lookup-cases g event) [
      | inl q ↦ rw q.0
      | inr (bound, p, q) ↦ rw p ((h bound).lookup_keeps_rows g.store event other)
    ];
    lookup_keeps_saved = λ g event tenant instrument. elim (lookup-cases g event) [
      | inl q ↦ rw q.0
      | inr (bound, p, q) ↦ rw p ((h bound).lookup_keeps_saved g.store event tenant instrument)
    ];
    lookup_ok = λ g event r e. elim (lookup-cases g event) [
      | inl q ↦ absurd (cc)
      | inr (bound, p, q) ↦ (h bound).lookup_ok g.store event r (sym q ∙ e)
    ];
  }

module _ {S : Type 0} (clock : S → ℤ) (t : Tables S)
    (next : Option ℤ → ReconciledStateRepository S) where
  upsert-cases :
      (g : Guarded S) (state : ReconciledState)
      → (((breaker_upsert clock next g state).0.store ≡ g.store)
          × ((breaker_upsert clock next g state).1 ≡ err circuit_open))
        ⊎ ((bound : Option ℤ) × ((breaker_upsert clock next g state).0.store
              ≡ ((next bound).upsert g.store state).0)
            × ((breaker_upsert clock next g state).1 ≡ ((next bound).upsert g.store state).1))
  unfolding breaker_upsert
  upsert-cases g state =
      guard-cases clock (λ bound s. (next bound).upsert s state) (stale_reconciled_state ∷ [])
        g.store g.states_machine

  get-cases :
      (g : Guarded S) (tenant instrument : Bytes)
      → (((breaker_get clock next g tenant instrument).0.store ≡ g.store)
          × ((breaker_get clock next g tenant instrument).1 ≡ err circuit_open))
        ⊎ ((bound : Option ℤ) × ((breaker_get clock next g tenant instrument).0.store
              ≡ ((next bound).get g.store tenant instrument).0)
            × ((breaker_get clock next g tenant instrument).1
                ≡ ((next bound).get g.store tenant instrument).1))
  unfolding breaker_get
  get-cases g tenant instrument =
      guard-cases clock (λ bound s. (next bound).get s tenant instrument) (not_found ∷ []) g.store
        g.states_machine

  -- A breaker before a table that keeps the contract of reconciled states, whatever bound a call
  -- gets, keeps it too.
  pub state_breaker-IsStateTable :
      ((bound : Option ℤ) → IsStateTable t (next bound))
      → IsStateTable (guarded_tables t) (state_breaker clock next)
  state_breaker-IsStateTable h = record {
    upsert_keeps_rows = λ g state event. elim (upsert-cases g state) [
      | inl q ↦ rw q.0
      | inr (bound, p, q) ↦ rw p ((h bound).upsert_keeps_rows g.store state event)
    ];
    upsert_keeps_others = λ g state tenant instrument e. elim (upsert-cases g state) [
      | inl q ↦ rw q.0
      | inr (bound, p, q) ↦ rw p ((h bound).upsert_keeps_others g.store state tenant instrument e)
    ];
    upsert_swaps = λ g state tenant instrument a b. elim (upsert-cases g state) [
      | inl q ↦ rw q.0 (inl refl)
      | inr (bound, p, q) ↦ rw p ((h bound).upsert_swaps g.store state tenant instrument a b)
    ];
    upsert_ok = λ g state tenant instrument a b e. elim (upsert-cases g state) [
      | inl q ↦ absurd (cc)
      | inr (bound, p, q) ↦
          rw p ((h bound).upsert_ok g.store state tenant instrument a b (sym q ∙ e))
    ];
    upsert_stale = λ g state tenant instrument a b e. elim (upsert-cases g state) [
      | inl q ↦ absurd (cc)
      | inr (bound, p, q) ↦ (h bound).upsert_stale g.store state tenant instrument a b (sym q ∙ e)
    ];
    get_keeps_rows = λ g tenant instrument event. elim (get-cases g tenant instrument) [
      | inl q ↦ rw q.0
      | inr (bound, p, q) ↦ rw p ((h bound).get_keeps_rows g.store tenant instrument event)
    ];
    get_keeps_saved = λ g tenant instrument other other'. elim (get-cases g tenant instrument) [
      | inl q ↦ rw q.0
      | inr (bound, p, q) ↦ rw p ((h bound).get_keeps_saved g.store tenant instrument other other')
    ];
    get_ok = λ g tenant instrument state e. elim (get-cases g tenant instrument) [
      | inl q ↦ absurd (cc)
      | inr (bound, p, q) ↦ (h bound).get_ok g.store tenant instrument state (sym q ∙ e)
    ];
    get_not_found = λ g tenant instrument e. elim (get-cases g tenant instrument) [
      | inl q ↦ absurd (cc)
      | inr (bound, p, q) ↦ (h bound).get_not_found g.store tenant instrument (sym q ∙ e)
    ];
  }
