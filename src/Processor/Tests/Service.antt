-- ===== src/Processor/Tests/Service.antt =====
-- Runs of the reconciler over the stores behind their breakers, and of its metrics.
use go_transaction_control_p.Processor.Redelivery.{deliveries}
use go_transaction_control_p.Processor.Observed.{
  new_metrics-IsCached, instrumented_reconcile-Instrumented, Instrumented,
}
use go_transaction_control_p.Processor.Service.{
  service_at_most_once, service_table, service_ledger, service_states, service_transactions,
  service_tables,
}
use go_transaction_control_p.Prelude.Int.{ℤ, pos}
use go_transaction_control_p.Ledger.Types.{failed, RepositoryError, Transaction}
use go_transaction_control_p.Ledger.Storage.{Database}
use go_transaction_control_p.Ledger.Breaker.{Guarded}
use go_transaction_control_p.Processor.Delivery.{Delivered}
use go_transaction_control_p.Breaker.{State, Machine, closed}
use go_transaction_control_p.Processor.Instrumented.{new_metrics, instrumented_reconcile, Metrics}
use go_transaction_control_p.Processor.Tests.{buy}
use go_transaction_control_p.Ledger.Storage.Tests.{keep_currency, to_microseconds, empty_tables}
use go_transaction_control_p.Prelude.{
  ◌==◌, if◌then◌else◌, ◌+◌, ◌≡◌, Result, codes, Option, ℕ, ok, err, none, some, [], ◌∷◌,
}

abbrev calm : Machine
calm = record {
  config = record { failure_threshold = 5; open_timeout = pos 30; probe_timeout = pos 30 };
  state = closed;
  consecutive_failures = 0;
  opened_at = pos 0;
}

abbrev start : Guarded Database
start = record { store = empty_tables; transactions_machine = calm; states_machine = calm }

abbrev table_time : Database → ℤ
table_time d = d.now

service_at_most_once_example :
    Delivered
      (service_tables keep_currency to_microseconds table_time)
      (service_transactions keep_currency to_microseconds table_time)
      (service_states keep_currency to_microseconds table_time)
      (service_ledger keep_currency to_microseconds table_time)
      (service_table keep_currency to_microseconds table_time)
      start
      (deliveries
        (service_tables keep_currency to_microseconds table_time)
        (service_transactions keep_currency to_microseconds table_time)
        (service_states keep_currency to_microseconds table_time)
        (service_ledger keep_currency to_microseconds table_time)
        (service_table keep_currency to_microseconds table_time)
        2
        start
        buy)
      buy
service_at_most_once_example =
    service_at_most_once keep_currency to_microseconds table_time 2 start buy

-- A reconciler that takes a second and fails for its second transaction.
abbrev slow : ℕ → Transaction → ℕ × Result RepositoryError (Unit {0})
slow n txn = (n + 1, if n == 1 then err failed else ok tt)

abbrev no_breaker : ℕ → Option State
no_breaker n = none

abbrev one_tenant : Metrics
one_tenant = new_metrics (codes "t" ∷ [])

instrumented_reconcile-Instrumented_example :
    let r = instrumented_reconcile (λ n. pos n) no_breaker no_breaker slow one_tenant 1 buy in
    (r.1 ≡ slow 1 buy)
    × ((after : Metrics) × (r.0 ≡ some after)
        × Instrumented (λ n. pos n) no_breaker no_breaker slow one_tenant 1 buy after)
instrumented_reconcile-Instrumented_example =
    instrumented_reconcile-Instrumented (λ n. pos n) no_breaker no_breaker slow one_tenant 1 buy
      (new_metrics-IsCached (codes "t" ∷ []))
