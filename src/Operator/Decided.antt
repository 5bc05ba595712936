-- ===== src/Operator/Decided.antt =====
-- What a pass decides about a tenant's replicas and its isolation
-- (operator/internal/controller/tradingtenant_controller.go, decide and classify).
use go_transaction_control_p.Prelude.Int.{◌≤ℤ◌, ◌<ℤ◌, ℤ}
use go_transaction_control_p.Prelude.{◌⊎◌, ◌↔◌, arith, true, ◌≡◌}
use go_transaction_control_p.Operator.{
  clamp_replicas, baseline_of, decide, classify, TradingTenantSpec,
}

-- For bounds that a valid spec has and a last count that does not exceed the maximum, a pass asks for a
-- number of replicas within the bounds, and takes none away; it asks for more than the last count and
-- the minimum only if the lag is above its threshold. It isolates the tenant exactly if the lag is above
-- its threshold, the latency is not above its own, and the last count or the minimum is at least the
-- number of partitions.
pub decide_lem :
    (spec : TradingTenantSpec) (current lag p99_ms partition_count : ℤ)
    → spec.min_replicas ≤ℤ spec.max_replicas
    → current ≤ℤ spec.max_replicas
    → let decision = decide spec current lag p99_ms partition_count in
      (spec.min_replicas ≤ℤ decision.replicas)
      × (decision.replicas ≤ℤ spec.max_replicas)
      × (current ≤ℤ decision.replicas)
      × ((decision.replicas ≡ current)
          ⊎ ((decision.replicas ≡ spec.min_replicas)
              ⊎ (spec.scaling_policy.kafka_lag_threshold <ℤ lag)))
      × ((decision.set_dedicated_node_pool ≡ true) ↔ (
          (spec.scaling_policy.kafka_lag_threshold <ℤ lag)
          × (p99_ms ≤ℤ spec.scaling_policy.p99_latency_threshold_ms)
          × ((partition_count ≤ℤ current) ⊎ (partition_count ≤ℤ spec.min_replicas))))
unfolding decide classify baseline_of clamp_replicas
decide_lem spec current lag p99_ms partition_count h c =
    (ground arith, ground arith, ground arith, ground arith, ground arith)
