-- ===== src/Operator/Tests/Pools.antt =====
-- Runs of the dedicated pool's objects (operator/internal/controller/dedicated_pool.go).
use go_transaction_control_p.Prelude.Int.{pos}
use go_transaction_control_p.Operator.Tenant.{TradingTenant}
use go_transaction_control_p.Operator.Pool.Selected.{service_for-Selects, Selects}
use go_transaction_control_p.Operator.Pool.{
  service_for, processor_deployment_for, ingestion_deployment_for, Service, PoolSettings,
  Deployment,
}
use go_transaction_control_p.Prelude.{
  ap, arith, ◌≢◌, ◌≡◌, ℕ, codes, Result, List, Bytes, true, none, ok, err, [], ◌∷◌, refl,
}

abbrev own : TradingTenant → List Bytes → Result Bytes (List Bytes)
own tenant owners = ok (tenant.name ∷ [])

abbrev pub pool_settings : PoolSettings
pool_settings = record {
  ingestion_image = codes "ingestion:1";
  processor_image = codes "processor:1";
  ingestion_env_from = [];
  processor_env_from = [];
  node_selector = [];
  tolerations = [];
}

abbrev pub tenant_with : Bytes → TradingTenant
tenant_with id = record {
  name = id;
  namespace = codes "trading";
  tenant_id = id;
  spec = record {
    min_replicas = pos 1;
    max_replicas = pos 4;
    scaling_policy = record { kafka_lag_threshold = pos 10; p99_latency_threshold_ms = pos 50 };
    dedicated_node_pool = true;
  };
  status = record {
    state = none;
    current_replicas = pos 0;
    observed_kafka_lag = pos 0;
    observed_p99_ms = pos 0;
    observed_partition_count = pos 0;
    last_reconcile_time = pos 0;
  };
}

abbrev new_deployment : Deployment
new_deployment = record {
  owners = [];
  labels = [];
  selector = none;
  replicas = none;
  template_labels = [];
  node_selector = [];
  tolerations = [];
  volumes = [];
  containers = [];
}

abbrev new_service : Service
new_service = record { owners = []; labels = []; selector = []; ports = [] }

abbrev result_or : {A : Type 0} → A → Result Bytes A → A
result_or a (ok b) = b
result_or a (err e) = a

abbrev made_service : Service
made_service =
    result_or new_service (service_for own pool_settings (tenant_with (codes "acme")) new_service)

abbrev made_ingestion : Bytes → Deployment
made_ingestion id =
    result_or new_deployment
      (ingestion_deployment_for own pool_settings (tenant_with id) (pos 2) new_deployment)

abbrev made_processor : Deployment
made_processor =
    result_or new_deployment (
      processor_deployment_for own pool_settings (tenant_with (codes "acme")) (pos 2)
        new_deployment)

service_made :
    service_for own pool_settings (tenant_with (codes "acme")) new_service ≡ ok made_service
unfolding service_for
service_made = refl

ingestion_made :
    (id : Bytes)
    → ingestion_deployment_for own pool_settings (tenant_with id) (pos 2) new_deployment
      ≡ ok (made_ingestion id)
unfolding ingestion_deployment_for
ingestion_made id = refl

processor_made :
    processor_deployment_for own pool_settings (tenant_with (codes "acme")) (pos 2) new_deployment
    ≡ ok made_processor
unfolding processor_deployment_for
processor_made = refl

abbrev first_byte : Bytes → ℕ
first_byte [] = 0
first_byte (b ∷ bytes) = b

acme_not_zeta : codes "acme" ≢ codes "zeta"
acme_not_zeta e = absurd (omega (arith, ap first_byte e))

service_for-Selects_example :
    Selects made_service.selector (made_ingestion (codes "acme")).template_labels
    × (¬ Selects made_service.selector made_processor.template_labels)
    × (¬ Selects made_service.selector (made_ingestion (codes "zeta")).template_labels)
service_for-Selects_example =
    service_for-Selects own pool_settings (tenant_with (codes "acme")) (tenant_with (codes "zeta"))
      (pos 2) new_service made_service new_deployment (made_ingestion (codes "acme")) new_deployment
      made_processor new_deployment (made_ingestion (codes "zeta")) acme_not_zeta service_made
      (ingestion_made (codes "acme")) processor_made (ingestion_made (codes "zeta"))
