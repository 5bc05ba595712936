-- ===== src/Operator/Reconcile.antt =====
-- operator/internal/controller/tradingtenant_controller.go, Reconcile: one pass over a tenant. What
-- surrounds it is a world `W`: the Kubernetes client, the observer of Prometheus, the recorder of
-- events with the counter of transitions, the clock. Each call gets the context with its timeout.
pub mod Reconciled
use go_transaction_control_p.Operator.PartitionMap.{failed, done, racing}
use go_transaction_control_p.Operator.{stable, scaling, isolated, degraded}
use go_transaction_control_p.Ledger.Amount.{is_empty}
use go_transaction_control_p.Operator.{
  event_type_for_state, decide, EventType, TradingTenantState, ReconcileDecision,
}
use go_transaction_control_p.Prelude.Int.{leb_ℤ, pos, ℤ}
use go_transaction_control_p.Operator.Tenant.{TradingTenant}
use go_transaction_control_p.Operator.PartitionMap.{
  MapApi, racing, ensure_entry, remove_entry, done, Mutated,
}
use go_transaction_control_p.Prelude.{
  ℕ, ◌&&◌, not, List, if◌then◌else◌, codes, Result, Option, Bytes, Bool, true, false, some, none,
  ok, err, [], ◌∷◌,
}
use go_transaction_control_p.Operator.Pool.{
  PoolApi, PoolSettings, ensure_dedicated_pool, tear_down_dedicated_pool, ApiFailure, gone,
  other_failure,
}

pub data Transition : Type 0 where
  dedicated_pool_created dedicated_pool_provisioned dedicated_pool_torn_down : Transition
  state_changed : Option TradingTenantState → TradingTenantState → EventType → Transition

pub data PassError : Type 0 where
  read_failed lag_failed p99_failed count_failed isolation_failed start_failed : PassError
  pool_failed map_failed status_failed : PassError

pub record Controller (W : Type 0) : Type 0 where
  pub get_tenant : W → W × Result ApiFailure TradingTenant
  pub observed_kafka_lag : W → Bytes → Bytes → W × Result Bytes ℤ
  pub observed_p99_ms : W → Bytes → Bytes → W × Result Bytes ℤ
  pub observed_partition_count : W → Bytes → Bytes → W × Result Bytes ℤ
  pub observed_partition_start : W → Bytes → Bytes → W × Result Bytes ℤ
  pub update_tenant : W → TradingTenant → W × Result Bytes TradingTenant
  pub update_status : W → TradingTenant → W × Option Bytes
  pub record_transition : W → TradingTenant → Transition → W
  pub now : W → ℤ
  pub set_owner : TradingTenant → List Bytes → Result Bytes (List Bytes)
  pub settings : PoolSettings
  pub pool_api : PoolApi W
  pub map_api : MapApi W
  pub map_rounds : ℕ
  pub tenant_label_name : Bytes
  pub requeue_interval : ℤ

-- What a pass observed of a tenant.
pub record Signals : Type 0 where
  pub lag : ℤ
  pub p99_ms : ℤ
  pub partition_count : ℤ

abbrev pub default_tenant_label_name : Bytes
default_tenant_label_name = codes "tenant"

abbrev pub default_requeue_interval : ℤ
default_requeue_interval = pos 30000000000

abbrev pub same_state : Option TradingTenantState → TradingTenantState → Bool
same_state (some stable) stable = true
same_state (some scaling) scaling = true
same_state (some isolated) isolated = true
same_state (some degraded) degraded = true
same_state _ _ = false

abbrev pub decision_of : TradingTenant → Signals → ReconcileDecision
decision_of tenant signals =
    decide tenant.spec tenant.status.current_replicas signals.lag signals.p99_ms
      signals.partition_count

abbrev pub mark_isolated : TradingTenant → TradingTenant
mark_isolated tenant = record tenant { spec = record tenant.spec { dedicated_node_pool = true } }

-- The tenant with the status that a pass writes.
abbrev pub with_decision : TradingTenant → ReconcileDecision → Signals → ℤ → TradingTenant
with_decision tenant decision signals at = record tenant {
  status = record {
    state = some decision.state;
    current_replicas = decision.replicas;
    observed_kafka_lag = signals.lag;
    observed_p99_ms = signals.p99_ms;
    observed_partition_count = signals.partition_count;
    last_reconcile_time = at;
  };
}

abbrev pub Returned : Type 0 → Type 0 → Type 0
Returned W A = W × Result PassError A

module _ {W : Type 0} where
  -- `if err != nil { return }` behind a call.
  unfoldable pub proceed :
      {E A B : Type 0} → PassError → W × Result E A → (W → A → Returned W B) → Returned W B
  proceed e (w, err _) k = (w, err e)
  proceed e (w, ok a) k = k w a

  unfoldable pub and_then : {A B : Type 0} → Returned W A → (W → A → Returned W B) → Returned W B
  and_then (w, err e) k = (w, err e)
  and_then (w, ok a) k = k w a

  mapped : Mutated W → Returned W (Unit {0})
  mapped (done w) = (w, ok tt)
  mapped (failed w _) = (w, err map_failed)
  mapped (racing w) = (w, err map_failed)

  module _ (env : Controller W) where
    abbrev pub label_name : Bytes
    label_name =
        if is_empty env.tenant_label_name then default_tenant_label_name else env.tenant_label_name

    isolate_now : TradingTenant → W → Returned W TradingTenant
    unfolding proceed
    isolate_now tenant w =
        proceed isolation_failed (env.update_tenant w (mark_isolated tenant))
          (λ v answered. (env.record_transition v answered dedicated_pool_created, ok answered))

    unfoldable pub isolate : TradingTenant → ReconcileDecision → W → Returned W TradingTenant
    unfolding isolate_now
    isolate tenant decision w =
        if decision.set_dedicated_node_pool && not tenant.spec.dedicated_node_pool
        then isolate_now tenant w
        else (w, ok tenant)

    unfoldable pub record_if : Bool → W → TradingTenant → Transition → W
    record_if test w tenant transition =
        if test then env.record_transition w tenant transition else w

    provision : TradingTenant → ReconcileDecision → ℤ → W → Returned W (Unit {0})
    unfolding proceed record_if mapped
    provision tenant decision count w =
        proceed start_failed (env.observed_partition_start w label_name tenant.tenant_id)
          (λ v start.
            proceed pool_failed
              (ensure_dedicated_pool env.set_owner env.settings env.pool_api tenant start count
                decision.replicas v)
              (λ u created. mapped (
                ensure_entry env.map_api tenant.namespace tenant.tenant_id
                  (record { start = start; count = count }) env.map_rounds
                  (record_if created u tenant dedicated_pool_provisioned))))

    release : TradingTenant → W → Returned W (Unit {0})
    unfolding proceed record_if mapped
    release tenant w =
        proceed pool_failed (tear_down_dedicated_pool env.pool_api tenant w) (λ u deleted. mapped (
          remove_entry env.map_api tenant.namespace tenant.tenant_id env.map_rounds
            (record_if deleted u tenant dedicated_pool_torn_down)))

    -- The resources of an isolated tenant, or their removal.
    unfoldable pub place : TradingTenant → ReconcileDecision → ℤ → W → Returned W (Unit {0})
    unfolding provision release
    place tenant decision count w =
        if tenant.spec.dedicated_node_pool
        then provision tenant decision count w
        else release tenant w

    after_status :
        Option TradingTenantState
        → TradingTenant
        → TradingTenantState
        → W × Option Bytes
        → Returned W ℤ
    unfolding record_if
    after_status old tenant state (w, some e) = (w, err status_failed)
    after_status old tenant state (w, none) = (
      record_if (not (same_state old state)) w tenant
          (state_changed old state (event_type_for_state state)),
      ok (
          if leb_ℤ env.requeue_interval (pos 0)
          then default_requeue_interval
          else env.requeue_interval),
    )

    unfoldable pub write_status :
        Option TradingTenantState → TradingTenant → ReconcileDecision → Signals → W → Returned W ℤ
    unfolding after_status
    write_status old tenant decision signals w =
        let written = with_decision tenant decision signals (env.now w) in
        after_status old written decision.state (env.update_status w written)

    -- What follows the observations: the isolation of the tenant, its resources, its status.
    unfoldable pub act : TradingTenant → Signals → W → Returned W ℤ
    unfolding isolate place write_status and_then
    act tenant signals w =
        let decision = decision_of tenant signals in
        and_then (isolate tenant decision w) (λ v moved.
          and_then (place moved decision signals.partition_count v)
            (λ u _. write_status tenant.status.state moved decision signals u))

    unfoldable pub observe : TradingTenant → W → Returned W ℤ
    unfolding proceed act
    observe tenant w =
        proceed lag_failed (env.observed_kafka_lag w label_name tenant.tenant_id) (λ w1 lag.
          proceed p99_failed (env.observed_p99_ms w1 label_name tenant.tenant_id) (λ w2 p99_ms.
            proceed count_failed (env.observed_partition_count w2 label_name tenant.tenant_id)
              (λ w3 count.
                act tenant (record { lag = lag; p99_ms = p99_ms; partition_count = count }) w3)))

    after_read : W × Result ApiFailure TradingTenant → Returned W ℤ
    unfolding observe
    after_read (w, err gone) = (w, ok (pos 0))
    after_read (w, err (other_failure e)) = (w, err read_failed)
    after_read (w, ok tenant) = observe tenant w

    -- Reconcile; the value is the delay before the next pass, 0 for none.
    unfoldable pub reconcile_tenant : W → Returned W ℤ
    unfolding after_read
    reconcile_tenant w = after_read (env.get_tenant w)
