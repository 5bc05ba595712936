-- ===== src/Operator.antt =====
-- operator/internal/controller/tradingtenant_controller.go with the types of
-- operator/api/v1alpha1/tradingtenant_types.go: how a tenant's observed signals are classified. An
-- int32 or int64 is the integer that it stands for; nothing here adds, so nothing wraps around.
pub mod Decided
pub mod PartitionList
pub mod PartitionMap
pub mod Tenant
pub mod Pool
pub mod Queries
pub mod Settings
pub mod Reconcile
mod Tests
use go_transaction_control_p.Prelude.{true, not, false, ◌&&◌, if◌then◌else◌, Bool}
use go_transaction_control_p.Prelude.Int.{ltb_ℤ, ℤ}

pub data TradingTenantState : Type 0 where
  stable scaling isolated degraded : TradingTenantState

pub record ScalingPolicy : Type 0 where
  pub kafka_lag_threshold : ℤ
  pub p99_latency_threshold_ms : ℤ

-- The fields of the spec that the classification reads.
pub record TradingTenantSpec : Type 0 where
  pub min_replicas : ℤ
  pub max_replicas : ℤ
  pub scaling_policy : ScalingPolicy
  pub dedicated_node_pool : Bool

pub record ReconcileDecision : Type 0 where
  pub state : TradingTenantState
  pub replicas : ℤ
  pub set_dedicated_node_pool : Bool

pub data EventType : Type 0 where
  normal warning : EventType

-- eventTypeForState.
unfoldable pub event_type_for_state : TradingTenantState → EventType
event_type_for_state isolated = warning
event_type_for_state degraded = warning
event_type_for_state _ = normal

unfoldable pub clamp_replicas : ℤ → ℤ → ℤ → ℤ
clamp_replicas value minimum maximum =
    if ltb_ℤ value minimum then minimum else if ltb_ℤ maximum value then maximum else value

abbrev pub smaller : ℤ → ℤ → ℤ
smaller a b = if ltb_ℤ b a then b else a

unfoldable pub classify : TradingTenantSpec → ℤ → Bool → ℤ → ℤ → ℤ → ReconcileDecision
unfolding clamp_replicas
classify spec baseline already_isolated lag p99_ms partition_count =
    let lag_high = ltb_ℤ spec.scaling_policy.kafka_lag_threshold lag in
    let latency_high = ltb_ℤ spec.scaling_policy.p99_latency_threshold_ms p99_ms in
    if lag_high && latency_high
    then record { state = scaling; replicas = spec.max_replicas; set_dedicated_node_pool = false }
    else if lag_high && not latency_high && ltb_ℤ baseline partition_count
    then record {
      state = scaling;
      replicas =
          clamp_replicas (smaller spec.max_replicas partition_count) spec.min_replicas
            spec.max_replicas;
      set_dedicated_node_pool = false;
    }
    else if lag_high && not latency_high
    then record { state = isolated; replicas = baseline; set_dedicated_node_pool = true }
    else if not lag_high && latency_high
    then record { state = degraded; replicas = baseline; set_dedicated_node_pool = false }
    else record {
      state = if already_isolated then isolated else stable;
      replicas = baseline;
      set_dedicated_node_pool = false;
    }

-- The replicas that a pass starts from: the last count, at least the minimum.
unfoldable pub baseline_of : TradingTenantSpec → ℤ → ℤ
baseline_of spec current = if ltb_ℤ current spec.min_replicas then spec.min_replicas else current

-- What one pass of Reconcile decides for a tenant with `current` replicas.
unfoldable pub decide : TradingTenantSpec → ℤ → ℤ → ℤ → ℤ → ReconcileDecision
unfolding baseline_of classify
decide spec current lag p99_ms partition_count =
    classify spec (baseline_of spec current) spec.dedicated_node_pool lag p99_ms partition_count
