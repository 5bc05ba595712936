-- ===== src/Operator/Tests/Passes.antt =====
-- A pass of the controller (operator/internal/controller/tradingtenant_controller.go), over the server
-- that stores the shared map.
use go_transaction_control_p.Operator.PartitionMap.{data_at}
use go_transaction_control_p.Ingestion.Partitioner.{lookup}
use go_transaction_control_p.Ingestion.Partitioner.{lookup}
use go_transaction_control_p.Operator.{baseline_of, classify, decide}
use go_transaction_control_p.Operator.PartitionMap.{data_at, mutate_map, ensure_entry}
use go_transaction_control_p.Prelude.Int.{pos}
use go_transaction_control_p.Operator.Tests.Pools.{pool_settings, tenant_with}
use go_transaction_control_p.Operator.Tests.Maps.{
  create_stored, is_the_map, found_in, get_stored, map_api, Server,
}
use go_transaction_control_p.Operator.Reconcile.{
  write_status, place, isolate, default_requeue_interval, and_then, act, proceed, observe,
  reconcile_tenant, Controller,
}
use go_transaction_control_p.Prelude.{eq_bytes, codes, ◌≡◌, some, none, ok, [], ◌∷◌, refl}
use go_transaction_control_p.Operator.Pool.{ensure_dedicated_pool, PoolApi, gone, created}

abbrev quiet_pool : PoolApi Server
quiet_pool = record {
  put_config_map = λ w namespace name mutate. (w, ok created);
  put_deployment = λ w namespace name mutate. (w, ok created);
  put_service = λ w namespace name mutate. (w, ok created);
  delete_config_map = λ w namespace name. (w, some gone);
  delete_deployment = λ w namespace name. (w, some gone);
  delete_service = λ w namespace name. (w, some gone);
}

abbrev controller : Controller Server
controller = record {
  get_tenant = λ w. (w, ok (tenant_with (codes "acme")));
  observed_kafka_lag = λ w label id. (w, ok (pos 20));
  observed_p99_ms = λ w label id. (w, ok (pos 5));
  observed_partition_count = λ w label id. (w, ok (pos 1));
  observed_partition_start = λ w label id. (w, ok (pos 4));
  update_tenant = λ w tenant. (w, ok tenant);
  update_status = λ w tenant. (w, none);
  record_transition = λ w tenant transition. w;
  now = λ w. pos 1700;
  set_owner = λ tenant owners. ok (tenant.name ∷ []);
  settings = pool_settings;
  pool_api = quiet_pool;
  map_api = map_api;
  map_rounds = 1;
  tenant_label_name = [];
  requeue_interval = pos 0;
}

abbrev published_map : Server
published_map = (reconcile_tenant controller none).0

first_pass : reconcile_tenant controller none ≡ (published_map, ok default_requeue_interval)
unfolding reconcile_tenant observe proceed act and_then isolate place write_status
    ensure_dedicated_pool ensure_entry mutate_map decide classify baseline_of data_at lookup
    get_stored found_in is_the_map create_stored eq_bytes
first_pass = refl
