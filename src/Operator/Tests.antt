-- ===== src/Operator/Tests.antt =====
-- Runs of the classification of operator/internal/controller/tradingtenant_controller.go.
mod Maps
mod Pools
mod Passes
mod Queried
use go_transaction_control_p.Operator.Decided.{decide_lem}
use go_transaction_control_p.Prelude.{◌↔◌, ◌⊎◌, true, arith, ◌≡◌, false}
use go_transaction_control_p.Prelude.Int.{◌<ℤ◌, ◌≤ℤ◌, pos}
use go_transaction_control_p.Operator.{
  baseline_of, scaling, isolated, decide, classify, TradingTenantSpec,
}

abbrev some_spec : TradingTenantSpec
some_spec = record {
  min_replicas = pos 2;
  max_replicas = pos 10;
  scaling_policy = record { kafka_lag_threshold = pos 1000; p99_latency_threshold_ms = pos 250 };
  dedicated_node_pool = false;
}

decide_lem_example :
    let decision = decide some_spec (pos 8) (pos 5000) (pos 100) (pos 8) in
    (pos 2 ≤ℤ decision.replicas)
    × (decision.replicas ≤ℤ pos 10)
    × (pos 8 ≤ℤ decision.replicas)
    × ((decision.replicas ≡ pos 8) ⊎ ((decision.replicas ≡ pos 2) ⊎ (pos 1000 <ℤ pos 5000)))
    × ((decision.set_dedicated_node_pool ≡ true)
        ↔ ((pos 1000 <ℤ pos 5000) × (pos 100 ≤ℤ pos 250) × ((pos 8 ≤ℤ pos 8) ⊎ (pos 8 ≤ℤ pos 2))))
decide_lem_example =
    decide_lem some_spec (pos 8) (pos 5000) (pos 100) (pos 8) (omega arith) (omega arith)
