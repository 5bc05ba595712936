-- ===== src/Operator/Tenant.antt =====
-- operator/api/v1alpha1/tradingtenant_types.go: a tenant's object, with the fields that the controller
-- reads and writes. An empty state is `none`.
use go_transaction_control_p.Prelude.Int.{ℤ}
use go_transaction_control_p.Operator.{TradingTenantState, TradingTenantSpec}
use go_transaction_control_p.Prelude.{Option, Bytes}

pub record TradingTenantStatus : Type 0 where
  pub state : Option TradingTenantState
  pub current_replicas : ℤ
  pub observed_kafka_lag : ℤ
  pub observed_p99_ms : ℤ
  pub observed_partition_count : ℤ
  pub last_reconcile_time : ℤ

pub record TradingTenant : Type 0 where
  pub name : Bytes
  pub namespace : Bytes
  pub tenant_id : Bytes
  pub spec : TradingTenantSpec
  pub status : TradingTenantStatus
