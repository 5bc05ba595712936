-- ===== src/Processor/Instrumented.antt =====
-- internal/processor/metrics.go: the reconciler with its metrics. A counter is the number of calls of
-- Inc; an observation goes to the observer of a tenant's label and an outcome, true for success. The
-- outcome of the use of an observer that was not cached, which is nil, is none.
use go_transaction_control_p.Ledger.Types.{Transaction}
use go_transaction_control_p.Ingestion.Partitioner.{less_bytes}
use go_transaction_control_p.Ingestion.Chain.{breaker_state_value}
use go_transaction_control_p.Metrics.{is_known, unknown_tenant_label, tenant_label}
use go_transaction_control_p.Breaker.{time_sub, State}
use go_transaction_control_p.Prelude.Int.{ℤ}
use go_transaction_control_p.Prelude.{
  ◌+◌, if◌then◌else◌, ℕ, Result, Option, List, Bytes, Bool, true, false, ok, err, none, some, [],
  ◌∷◌,
}

pub record Observation : Type 0 where
  pub tenant : Bytes
  pub success : Bool
  pub elapsed : ℤ

-- `observers` are the labels for which observers are cached; the gauges are of the two breakers.
pub record Metrics : Type 0 where
  pub successes : ℕ
  pub failures : ℕ
  pub observers : List Bytes
  pub observations : List Observation
  pub transactions_gauge : ℕ
  pub states_gauge : ℕ
  pub known_tenants : List Bytes

unfoldable pub insert_sorted : Bytes → List Bytes → List Bytes
insert_sorted tenant [] = tenant ∷ []
insert_sorted tenant (t ∷ tenants) =
    let rest = insert_sorted tenant tenants in
    if less_bytes t tenant then t ∷ rest else tenant ∷ t ∷ tenants

-- sortedTenantIDs.
unfoldable pub sorted_tenant_ids : List Bytes → List Bytes
unfolding insert_sorted
sorted_tenant_ids [] = []
sorted_tenant_ids (tenant ∷ tenants) = insert_sorted tenant (sorted_tenant_ids tenants)

-- NewMetrics, of metrics that the registry takes.
unfoldable pub new_metrics : List Bytes → Metrics
unfolding sorted_tenant_ids
new_metrics known_tenants = record {
  successes = 0;
  failures = 0;
  observers = unknown_tenant_label ∷ sorted_tenant_ids known_tenants;
  observations = [];
  transactions_gauge = 0;
  states_gauge = 0;
  known_tenants = known_tenants;
}

-- durationObserver: the label of the cached observer, if there is one.
unfoldable pub duration_observer : Metrics → Bytes → Option Bytes
duration_observer metrics tenant =
    let label = tenant_label metrics.known_tenants tenant in
    if is_known metrics.observers label then some label else none

unfoldable pub count_outcome : Metrics → Bool → Metrics
count_outcome metrics true = record metrics { successes = metrics.successes + 1 }
count_outcome metrics false = record metrics { failures = metrics.failures + 1 }

unfoldable pub observe_duration : Metrics → Bool → ℤ → Option Bytes → Option Metrics
observe_duration metrics success elapsed none = none
observe_duration metrics success elapsed (some label) = some (record metrics {
  observations =
      (record { tenant = label; success = success; elapsed = elapsed }) ∷ metrics.observations;
})

-- A gauge after the refresh, for a breaker that was configured.
unfoldable pub refreshed_gauge : Option State → ℕ → ℕ
refreshed_gauge none current = current
refreshed_gauge (some state) current = breaker_state_value state

unfoldable pub is_success : {E : Type 0} → Result E (Unit {0}) → Bool
is_success (ok _) = true
is_success (err e) = false

module _ {S : Type 0} (clock : S → ℤ) (transactions_breaker states_breaker : S → Option State) where
  unfoldable pub with_gauges : S → Option Metrics → Option Metrics
  with_gauges s none = none
  with_gauges s (some metrics) = some (record metrics {
    transactions_gauge = refreshed_gauge (transactions_breaker s) metrics.transactions_gauge;
    states_gauge = refreshed_gauge (states_breaker s) metrics.states_gauge;
  })

  -- InstrumentedReconciler.Reconcile around the reconciler's call.
  unfoldable pub instrumented_reconcile :
      {E : Type 0}
      → (S → Transaction → S × Result E (Unit {0}))
      → Metrics
      → S
      → Transaction
      → Option Metrics × (S × Result E (Unit {0}))
  unfolding with_gauges
  instrumented_reconcile next metrics s txn =
      let answer = next s txn in
      let success = is_success answer.1 in
      let counted = count_outcome metrics success in
      let elapsed = time_sub (clock answer.0) (clock s) in
      (
        with_gauges answer.0
            (observe_duration counted success elapsed (duration_observer counted txn.tenant_id)),
        answer,
      )
