-- ===== src/Processor/Service.antt =====
-- The reconciler of cmd/processor/main.go: over the stores of internal/ledger/storage behind the
-- breakers of internal/ledger. A call whose bound runs out is one whose request or reply is lost.
use go_transaction_control_p.Processor.Redelivery.{redelivery_at_most_once, deliveries}
use go_transaction_control_p.Processor.Delivery.{Delivered}
use go_transaction_control_p.Ledger.Storage.StateContract.{state_store-IsStateTable}
use go_transaction_control_p.Ledger.Storage.Contract.{transaction_store-IsLedger}
use go_transaction_control_p.Ledger.Breaker.Contract.{
  guarded_tables, transaction_breaker-IsLedger, state_breaker-IsStateTable,
}
use go_transaction_control_p.Ledger.Breaker.{transaction_breaker, state_breaker, Guarded}
use go_transaction_control_p.Ledger.Repository.{
  TransactionRepository, Tables, ReconciledStateRepository, IsStateTable, IsLedger,
}
use go_transaction_control_p.Prelude.Int.{ℤ}
use go_transaction_control_p.Ledger.Types.{Transaction, Time}
use go_transaction_control_p.Prelude.{ℕ, Option, Bytes}
use go_transaction_control_p.Ledger.Storage.{
  Database, transaction_store, state_store, stored_tables,
}

module _ (char3 : Bytes → Option Bytes) (timestamptz : Time → Option Time)
    (clock : Database → ℤ) where
  abbrev pub service_tables : Tables (Guarded Database)
  service_tables = guarded_tables stored_tables

  abbrev pub service_transactions : TransactionRepository (Guarded Database)
  service_transactions = transaction_breaker clock (λ bound. transaction_store char3 timestamptz)

  abbrev pub service_states : ReconciledStateRepository (Guarded Database)
  service_states = state_breaker clock (λ bound. state_store)

  pub service_ledger : IsLedger service_tables service_transactions
  service_ledger =
      transaction_breaker-IsLedger clock stored_tables
        (λ bound. transaction_store char3 timestamptz)
        (λ bound. transaction_store-IsLedger char3 timestamptz)

  pub service_table : IsStateTable service_tables service_states
  service_table =
      state_breaker-IsStateTable clock stored_tables (λ bound. state_store)
        (λ bound. state_store-IsStateTable)

  -- On the real stores behind their breakers, however often an event is delivered, whatever the
  -- connections lose and whenever a breaker is open, the reconciled states are the ones before the
  -- first delivery, or differ from them by one fold of the event's stored row into the state of its
  -- tenant and instrument.
  pub service_at_most_once :
      (n : ℕ) (g : Guarded Database) (txn : Transaction)
      → Delivered service_tables service_transactions service_states service_ledger service_table g
          (deliveries service_tables service_transactions service_states service_ledger
            service_table n g txn)
          txn
  service_at_most_once n g txn =
      redelivery_at_most_once service_tables service_transactions service_states service_ledger
        service_table n g txn
