-- ===== src/Processor/Observed.antt =====
-- The metrics of a call of the reconciler (internal/processor/metrics.go).
use go_transaction_control_p.Ingestion.Partitioner.{less_bytes}
use go_transaction_control_p.Metrics.Labels.{tenant_label-LabelOf, LabelOf, tenant_label-bounded}
use go_transaction_control_p.Ledger.Types.{Transaction}
use go_transaction_control_p.Breaker.{time_sub, State}
use go_transaction_control_p.Metrics.{unknown_tenant_label, tenant_label, is_known}
use go_transaction_control_p.Prelude.Int.{ℤ}
use go_transaction_control_p.Processor.Instrumented.{
  refreshed_gauge, observe_duration, with_gauges, count_outcome, is_success, instrumented_reconcile,
  sorted_tenant_ids, new_metrics, insert_sorted, duration_observer, Metrics,
}
use go_transaction_control_p.Prelude.{
  ◌⊎◌, err, ok, Bool, ◌+◌, arith, if◌then◌else◌, Bool-cases, ◌||◌, Result, ◌∙◌, eq_bytes, List, ◌≡◌,
  Option, Bytes, true, false, some, [], ◌∷◌, inl, inr, refl,
}

is_known-insert_sorted :
    (tenant : Bytes) (tenants : List Bytes) (t : Bytes)
    → is_known (insert_sorted tenant tenants) t ≡ (eq_bytes tenant t || is_known tenants t)
unfolding insert_sorted is_known
is_known-insert_sorted tenant [] t = refl
is_known-insert_sorted tenant (first ∷ tenants) t = elim (Bool-cases (less_bytes first tenant)) [
  | inl e ↦ rw e (rw (is_known-insert_sorted tenant tenants t) (ground arith))
  | inr e ↦ rw e refl
]

is_known-sorted_tenant_ids :
    (tenants : List Bytes) (t : Bytes) → is_known (sorted_tenant_ids tenants) t ≡ is_known tenants t
unfolding sorted_tenant_ids is_known
is_known-sorted_tenant_ids [] t = refl
is_known-sorted_tenant_ids (first ∷ tenants) t =
    is_known-insert_sorted first (sorted_tenant_ids tenants) t
    ∙ rw (is_known-sorted_tenant_ids tenants t) refl

-- Every label that tenants can have is cached.
abbrev pub IsCached : Metrics → Type 0
IsCached metrics =
    (label : Bytes)
    → is_known (unknown_tenant_label ∷ metrics.known_tenants) label ≡ true
    → is_known metrics.observers label ≡ true

pub new_metrics-IsCached : (known : List Bytes) → IsCached (new_metrics known)
unfolding new_metrics is_known
new_metrics-IsCached known label h = rw (is_known-sorted_tenant_ids known label) h

duration_observer_found :
    (metrics : Metrics) (tenant : Bytes)
    → IsCached metrics
    → duration_observer metrics tenant ≡ some (tenant_label metrics.known_tenants tenant)
unfolding duration_observer
duration_observer_found metrics tenant c =
    rw
      (c (tenant_label metrics.known_tenants tenant)
        (tenant_label-bounded metrics.known_tenants tenant))
      refl

-- One call is counted and observed under its outcome, and every observer is still there.
abbrev pub Counted : Metrics → Bytes → Bool → ℤ → Metrics → Type 0
Counted before tenant success elapsed after =
    IsCached after
    × (after.successes ≡ (if success then before.successes + 1 else before.successes))
    × (after.failures ≡ (if success then before.failures else before.failures + 1))
    × ((label : Bytes) × LabelOf before.known_tenants tenant label
        × (after.observations
            ≡ (record { tenant = label; success = success; elapsed = elapsed })
              ∷ before.observations))

module _ {S : Type 0} (clock : S → ℤ) (transactions_breaker states_breaker : S → Option State) where
  refreshed : Metrics → Bytes → Bool → ℤ → S → Metrics
  refreshed counted tenant success elapsed s = record counted {
    observations =
        (record {
          tenant = tenant_label counted.known_tenants tenant;
          success = success;
          elapsed = elapsed;
        })
        ∷ counted.observations;
    transactions_gauge = refreshed_gauge (transactions_breaker s) counted.transactions_gauge;
    states_gauge = refreshed_gauge (states_breaker s) counted.states_gauge;
  }

  observed_as :
      (counted : Metrics) (tenant : Bytes) (success : Bool) (elapsed : ℤ) (s : S)
      → IsCached counted
      → with_gauges clock transactions_breaker states_breaker s
          (observe_duration counted success elapsed (duration_observer counted tenant))
        ≡ some (refreshed counted tenant success elapsed s)
  unfolding with_gauges observe_duration refreshed
  observed_as counted tenant success elapsed s c =
      rw (duration_observer_found counted tenant c) refl

  counted_once :
      (metrics : Metrics) (success : Bool) (elapsed : ℤ) (s : S) (tenant : Bytes)
      → IsCached metrics
      → let counted = count_outcome metrics success in
        (after : Metrics) × (with_gauges clock transactions_breaker states_breaker s
            (observe_duration counted success elapsed (duration_observer counted tenant))
          ≡ some after)
        × Counted metrics tenant success elapsed after
  unfolding count_outcome refreshed
  counted_once metrics true elapsed s tenant c =
      let counted = count_outcome metrics true in
      (
        refreshed counted tenant true elapsed s,
        observed_as counted tenant true elapsed s c,
        (
          c,
          refl,
          refl,
          (
            tenant_label metrics.known_tenants tenant,
            tenant_label-LabelOf metrics.known_tenants tenant,
            refl,
          ),
        ),
      )
  counted_once metrics false elapsed s tenant c =
      let counted = count_outcome metrics false in
      (
        refreshed counted tenant false elapsed s,
        observed_as counted tenant false elapsed s c,
        (
          c,
          refl,
          refl,
          (
            tenant_label metrics.known_tenants tenant,
            tenant_label-LabelOf metrics.known_tenants tenant,
            refl,
          ),
        ),
      )

module _ {S E : Type 0} (clock : S → ℤ) (transactions_breaker states_breaker : S → Option State)
    (next : S → Transaction → S × Result E (Unit {0})) where
  -- What a call leaves of the metrics.
  abbrev pub Instrumented : Metrics → S → Transaction → Metrics → Type 0
  Instrumented before s txn after =
      let answer = next s txn in
      let elapsed = time_sub (clock answer.0) (clock s) in
      ((answer.1 ≡ ok tt) × Counted before txn.tenant_id true elapsed after)
      ⊎ ((e : E) × (answer.1 ≡ err e) × Counted before txn.tenant_id false elapsed after)

  by_outcome :
      (metrics after : Metrics) (s : S) (txn : Transaction) (result : Result E (Unit {0}))
      → (next s txn).1 ≡ result
      → Counted metrics txn.tenant_id
          (is_success result)
          (time_sub (clock (next s txn).0) (clock s))
          after
      → Instrumented metrics s txn after
  unfolding is_success
  by_outcome metrics after s txn (ok tt) h c = inl (h, c)
  by_outcome metrics after s txn (err e) h c = inr (e, h, c)

  -- The instrumented reconciler answers what the reconciler answers, never meets an observer that is
  -- not cached, counts the call once under its outcome and observes it once, with that outcome and the
  -- time that it took, under a label that is the tenant's identifier if the tenant is known and
  -- "unregistered" otherwise; its metrics stay fit for the next call.
  pub instrumented_reconcile-Instrumented :
      (metrics : Metrics) (s : S) (txn : Transaction)
      → IsCached metrics
      → let r =
          instrumented_reconcile clock transactions_breaker states_breaker next metrics s txn in
        (r.1 ≡ next s txn)
        × ((after : Metrics) × (r.0 ≡ some after) × Instrumented metrics s txn after)
  unfolding instrumented_reconcile
  instrumented_reconcile-Instrumented metrics s txn c =
      let answer = next s txn in
      let (after, e, counted) =
        counted_once clock transactions_breaker states_breaker metrics (is_success answer.1)
          (time_sub (clock answer.0) (clock s)) answer.0 txn.tenant_id c in
      (refl, (after, e, by_outcome metrics after s txn answer.1 refl counted))
