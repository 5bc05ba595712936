-- ===== src/Ledger/Breaker.antt =====
-- internal/ledger/breaker.go: the two repositories behind circuit breakers. The wrapped repository
-- takes the bound that the context of a probe gets; `clock` is the machines' clock.
pub mod Contract
mod Tests
use go_transaction_control_p.Ledger.Repository.{TransactionRepository, ReconciledStateRepository}
use go_transaction_control_p.Prelude.{
  true, not, [], ◌||◌, err, ◌∷◌, if◌then◌else◌, Bytes, ok, false, Result, Option, List, Bool,
}
use go_transaction_control_p.Prelude.Int.{ℤ}
use go_transaction_control_p.Ledger.Types.{
  circuit_open, stale_reconciled_state, not_found, duplicate_event, Time, Transaction,
  ReconciledState, RepositoryError,
}
use go_transaction_control_p.Breaker.{probe_bound, record_outcome, allow, Machine}

-- The stored tables and the machines of the two breakers.
pub record Guarded (S : Type 0) : Type 0 where
  pub store : S
  pub transactions_machine : Machine
  pub states_machine : Machine

-- errors.Is against a sentinel.
unfoldable pub is_error : RepositoryError → RepositoryError → Bool
is_error not_found not_found = true
is_error duplicate_event duplicate_event = true
is_error stale_reconciled_state stale_reconciled_state = true
is_error circuit_open circuit_open = true
is_error _ _ = false

unfoldable pub ignored_for_breaker : RepositoryError → List RepositoryError → Bool
unfolding is_error
ignored_for_breaker e [] = false
ignored_for_breaker e (sentinel ∷ sentinels) =
    is_error e sentinel || ignored_for_breaker e sentinels

-- recordResult; the ignored errors count as a success.
unfoldable pub record_result :
    {A : Type 0} → ℤ → Result RepositoryError A → List RepositoryError → Machine → Machine
unfolding ignored_for_breaker
record_result now (ok a) ignored machine = record_outcome now false machine
record_result now (err e) ignored machine =
    record_outcome now (not (ignored_for_breaker e ignored)) machine

module _ {S A : Type 0} (clock : S → ℤ) where
  -- The wrapped call, and its result on the machine.
  call_through :
      (S → S × Result RepositoryError A)
      → List RepositoryError
      → S
      → Machine
      → S × (Machine × Result RepositoryError A)
  call_through call ignored s machine =
      let answer = call s in
      (answer.0, (record_result (clock answer.0) answer.1 ignored machine, answer.1))

  -- What every method does around its call of the wrapped repository.
  unfoldable pub guard :
      (Option ℤ → S → S × Result RepositoryError A)
      → List RepositoryError
      → S
      → Machine
      → S × (Machine × Result RepositoryError A)
  unfolding call_through
  guard call ignored s machine =
      let answer = allow (clock s) machine in
      if answer.1.0
      then call_through (call (probe_bound answer.0 answer.1.1)) ignored s answer.0
      else (s, (answer.0, err circuit_open))

module _ {S : Type 0} (clock : S → ℤ) where
  -- The world after a method of one of the breakers, with its result.
  with_transactions :
      {A : Type 0}
      → Guarded S
      → S × (Machine × Result RepositoryError A)
      → Guarded S × Result RepositoryError A
  with_transactions g answer =
      (record g { store = answer.0; transactions_machine = answer.1.0 }, answer.1.1)

  with_states :
      {A : Type 0}
      → Guarded S
      → S × (Machine × Result RepositoryError A)
      → Guarded S × Result RepositoryError A
  with_states g answer = (record g { store = answer.0; states_machine = answer.1.0 }, answer.1.1)

  module _ (next : Option ℤ → TransactionRepository S) where
    unfoldable pub breaker_insert :
        Guarded S → Transaction → Guarded S × Result RepositoryError Transaction
    unfolding guard with_transactions
    breaker_insert g txn = with_transactions g (
        guard clock (λ bound s. (next bound).insert s txn) (duplicate_event ∷ []) g.store
          g.transactions_machine)

    unfoldable pub breaker_get_by_event_id :
        Guarded S → Bytes → Guarded S × Result RepositoryError Transaction
    unfolding guard with_transactions
    breaker_get_by_event_id g event = with_transactions g (
        guard clock (λ bound s. (next bound).get_by_event_id s event) (not_found ∷ []) g.store
          g.transactions_machine)

    unfoldable pub breaker_list_by_tenant :
        Guarded S → Bytes → Time → Guarded S × Result RepositoryError (List Transaction)
    unfolding guard with_transactions
    breaker_list_by_tenant g tenant since = with_transactions g (
        guard clock (λ bound s. (next bound).list_by_tenant s tenant since) [] g.store
          g.transactions_machine)

    -- The breaker is a TransactionRepository itself.
    abbrev pub transaction_breaker : TransactionRepository (Guarded S)
    transaction_breaker = record {
      insert = breaker_insert;
      get_by_event_id = breaker_get_by_event_id;
      list_by_tenant = breaker_list_by_tenant;
    }

  module _ (next : Option ℤ → ReconciledStateRepository S) where
    unfoldable pub breaker_upsert :
        Guarded S → ReconciledState → Guarded S × Result RepositoryError (Unit {0})
    unfolding guard with_states
    breaker_upsert g state = with_states g (
        guard clock (λ bound s. (next bound).upsert s state) (stale_reconciled_state ∷ []) g.store
          g.states_machine)

    unfoldable pub breaker_get :
        Guarded S → Bytes → Bytes → Guarded S × Result RepositoryError ReconciledState
    unfolding guard with_states
    breaker_get g tenant instrument = with_states g (
        guard clock (λ bound s. (next bound).get s tenant instrument) (not_found ∷ []) g.store
          g.states_machine)

    abbrev pub state_breaker : ReconciledStateRepository (Guarded S)
    state_breaker = record { upsert = breaker_upsert; get = breaker_get }
