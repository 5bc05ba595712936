-- ===== src/Operator/Pool.antt =====
-- operator/internal/controller/dedicated_pool.go: the objects of an isolated tenant's dedicated pool.
-- An object has the fields that the controller sets; `owners` are its owner references, which
-- `set_owner` is SetControllerReference on.
pub mod Settled
pub mod Selected
use go_transaction_control_p.Operator.PartitionList.{partition_list_string}
use go_transaction_control_p.Ledger.Amount.{is_empty}
use go_transaction_control_p.Prelude.Int.{pos, ℤ}
use go_transaction_control_p.Operator.PartitionMap.{
  tenant_partition_map_data_key, tenant_partition_map_name,
}
use go_transaction_control_p.Operator.Tenant.{TradingTenant}
use go_transaction_control_p.Prelude.{
  ◌||◌, ◌>>=◌, ◌++◌, if◌then◌else◌, Result, codes, Option, List, Bytes, Bool, true, false, some,
  none, ok, err, [], ◌∷◌,
}

pub data ApiFailure : Type 0 where
  gone : ApiFailure
  other_failure : Bytes → ApiFailure

abbrev pub Labels : Type 0
Labels = List (Bytes × Bytes)

-- An element of envFrom: one that the operator was given, or the reference to a ConfigMap.
pub data EnvFrom : Type 0 where
  given : Bytes → EnvFrom
  config_map_ref : Bytes → EnvFrom

pub record Volume : Type 0 where
  pub name : Bytes
  pub config_map : Bytes
  pub optional : Bool

pub record VolumeMount : Type 0 where
  pub name : Bytes
  pub mount_path : Bytes
  pub read_only : Bool

pub record Container : Type 0 where
  pub name : Bytes
  pub image : Bytes
  pub env_from : List EnvFrom
  pub env : List (Bytes × Bytes)
  pub volume_mounts : List VolumeMount
  pub ports : List (Bytes × ℤ)

pub record ConfigObject : Type 0 where
  pub owners : List Bytes
  pub labels : Labels
  pub entries : List (Bytes × Bytes)

pub record Deployment : Type 0 where
  pub owners : List Bytes
  pub labels : Labels
  pub selector : Option Labels
  pub replicas : Option ℤ
  pub template_labels : Labels
  pub node_selector : Labels
  pub tolerations : List Bytes
  pub volumes : List Volume
  pub containers : List Container

pub record Service : Type 0 where
  pub owners : List Bytes
  pub labels : Labels
  pub selector : Labels
  pub ports : List (Bytes × ℤ)

-- The reconciler's settings.
pub record PoolSettings : Type 0 where
  pub ingestion_image : Bytes
  pub processor_image : Bytes
  pub ingestion_env_from : List EnvFrom
  pub processor_env_from : List EnvFrom
  pub node_selector : Labels
  pub tolerations : List Bytes

abbrev pub component_ingestion : Bytes
component_ingestion = codes "ingestion"

abbrev pub component_processor : Bytes
component_processor = codes "processor"

abbrev pub label_tenant : Bytes
label_tenant = codes "controlplane.anwinsenp.dev/tenant"

abbrev pub label_dedicated : Bytes
label_dedicated = codes "controlplane.anwinsenp.dev/dedicated"

abbrev pub label_component : Bytes
label_component = codes "controlplane.anwinsenp.dev/component"

abbrev pub tenant_partition_map_mount_dir : Bytes
tenant_partition_map_mount_dir = codes "/etc/tenant-partition-map"

abbrev pub tenant_partition_map_mount_path : Bytes
tenant_partition_map_mount_path =
    tenant_partition_map_mount_dir ++ (b'/' ∷ tenant_partition_map_data_key)

abbrev pub tenant_partition_map_volume : Volume
tenant_partition_map_volume = record {
  name = codes "tenant-partition-map";
  config_map = tenant_partition_map_name;
  optional = true;
}

abbrev pub tenant_partition_map_volume_mount : VolumeMount
tenant_partition_map_volume_mount = record {
  name = codes "tenant-partition-map";
  mount_path = tenant_partition_map_mount_dir;
  read_only = true;
}

abbrev pub dedicated_ingestion_name : TradingTenant → Bytes
dedicated_ingestion_name tenant = tenant.name ++ codes "-dedicated-ingestion"

abbrev pub dedicated_processor_name : TradingTenant → Bytes
dedicated_processor_name tenant = tenant.name ++ codes "-dedicated-processor"

abbrev pub dedicated_service_name : TradingTenant → Bytes
dedicated_service_name tenant = tenant.name ++ codes "-dedicated"

abbrev pub dedicated_config_map_name : TradingTenant → Bytes
dedicated_config_map_name tenant = tenant.name ++ codes "-dedicated-partitions"

-- A label set is a map.
unfoldable pub dedicated_labels : TradingTenant → Bytes → Labels
dedicated_labels tenant component =
    let shared : Labels = (label_tenant, tenant.tenant_id) ∷ (label_dedicated, codes "true") ∷ [] in
    if is_empty component then shared else (label_component, component) ∷ shared

selector_or : Option Labels → Labels → Option Labels
selector_or none labels = some labels
selector_or (some selector) labels = some selector

abbrev env_of_containers : List (Bytes × Bytes)
env_of_containers = (codes "TENANT_PARTITION_MAP_PATH", tenant_partition_map_mount_path) ∷ []

abbrev http_and_grpc : List (Bytes × ℤ)
http_and_grpc = (codes "http", pos 8080) ∷ (codes "grpc", pos 9090) ∷ []

pub data OperationResult : Type 0 where
  unchanged created updated : OperationResult

abbrev is_created : OperationResult → Bool
is_created created = true
is_created updated = false
is_created unchanged = false

module _ (set_owner : TradingTenant → List Bytes → Result Bytes (List Bytes))
    (settings : PoolSettings) where
  -- The mutation of ensureDedicatedConfigMap.
  unfoldable pub config_map_for : TradingTenant → ℤ → ℤ → ConfigObject → Result Bytes ConfigObject
  config_map_for tenant start count config_map = do
    owners ← set_owner tenant config_map.owners
    ok (record {
      owners = owners;
      labels = dedicated_labels tenant [];
      entries =
          (codes "TENANT_ID", tenant.tenant_id)
          ∷ (codes "KAFKA_MANUAL_PARTITIONS", partition_list_string start count)
          ∷ [];
    })

  deployment_for : TradingTenant → ℤ → Bytes → Container → Deployment → Result Bytes Deployment
  unfolding selector_or
  deployment_for tenant replicas component container deployment = do
    owners ← set_owner tenant deployment.owners
    ok (record {
      owners = owners;
      labels = dedicated_labels tenant component;
      selector = selector_or deployment.selector (dedicated_labels tenant component);
      replicas = some replicas;
      template_labels = dedicated_labels tenant component;
      node_selector = settings.node_selector;
      tolerations = settings.tolerations;
      volumes = tenant_partition_map_volume ∷ [];
      containers = container ∷ [];
    })

  -- The mutation of ensureDedicatedIngestionDeployment.
  unfoldable pub ingestion_deployment_for : TradingTenant → ℤ → Deployment → Result Bytes Deployment
  unfolding deployment_for
  ingestion_deployment_for tenant replicas deployment =
      deployment_for tenant replicas component_ingestion
        (record {
          name = codes "ingestion";
          image = settings.ingestion_image;
          env_from = settings.ingestion_env_from;
          env = env_of_containers;
          volume_mounts = tenant_partition_map_volume_mount ∷ [];
          ports = http_and_grpc;
        })
        deployment

  -- The mutation of ensureDedicatedProcessorDeployment.
  unfoldable pub processor_deployment_for : TradingTenant → ℤ → Deployment → Result Bytes Deployment
  unfolding deployment_for
  processor_deployment_for tenant replicas deployment =
      deployment_for tenant replicas component_processor
        (record {
          name = codes "processor";
          image = settings.processor_image;
          env_from =
              settings.processor_env_from
              ++ (config_map_ref (dedicated_config_map_name tenant) ∷ []);
          env = env_of_containers;
          volume_mounts = tenant_partition_map_volume_mount ∷ [];
          ports = [];
        })
        deployment

  -- The mutation of ensureDedicatedService.
  unfoldable pub service_for : TradingTenant → Service → Result Bytes Service
  service_for tenant service = do
    owners ← set_owner tenant service.owners
    ok (record {
      owners = owners;
      labels = dedicated_labels tenant [];
      selector = dedicated_labels tenant component_ingestion;
      ports = http_and_grpc;
    })

-- The Kubernetes client: controllerutil.CreateOrUpdate, by kind, namespace, name and mutation; and
-- Delete.
pub record PoolApi (W : Type 0) : Type 0 where
  pub put_config_map :
      W
      → Bytes
      → Bytes
      → (ConfigObject → Result Bytes ConfigObject)
      → W × Result Bytes OperationResult
  pub put_deployment :
      W → Bytes → Bytes → (Deployment → Result Bytes Deployment) → W × Result Bytes OperationResult
  pub put_service :
      W → Bytes → Bytes → (Service → Result Bytes Service) → W × Result Bytes OperationResult
  pub delete_config_map : W → Bytes → Bytes → W × Option ApiFailure
  pub delete_deployment : W → Bytes → Bytes → W × Option ApiFailure
  pub delete_service : W → Bytes → Bytes → W × Option ApiFailure

pub data PoolError : Type 0 where
  config_map_failed ingestion_failed processor_failed service_failed delete_failed : PoolError

module _ {W : Type 0} where
  -- An error ends the pass; otherwise the next object is put, with what was created so far.
  put_next :
      PoolError
      → Bool
      → W × Result Bytes OperationResult
      → (W → Bool → W × Result PoolError Bool)
      → W × Result PoolError Bool
  put_next e any_created (w, err _) next_put = (w, err e)
  put_next e any_created (w, ok result) next_put = next_put w (any_created || is_created result)

  module _ (set_owner : TradingTenant → List Bytes → Result Bytes (List Bytes))
      (settings : PoolSettings) (api : PoolApi W) (tenant : TradingTenant) where
    put_the_service : W → Bool → W × Result PoolError Bool
    unfolding put_next
    put_the_service w any_created =
        put_next service_failed any_created
          (api.put_service w tenant.namespace (dedicated_service_name tenant)
            (service_for set_owner settings tenant))
          (λ w' any. (w', ok any))

    put_the_processor : ℤ → W → Bool → W × Result PoolError Bool
    unfolding put_next put_the_service
    put_the_processor replicas w any_created =
        put_next processor_failed any_created
          (api.put_deployment w tenant.namespace (dedicated_processor_name tenant)
            (processor_deployment_for set_owner settings tenant replicas))
          put_the_service

    put_the_ingestion : ℤ → W → Bool → W × Result PoolError Bool
    unfolding put_next put_the_processor
    put_the_ingestion replicas w any_created =
        put_next ingestion_failed any_created
          (api.put_deployment w tenant.namespace (dedicated_ingestion_name tenant)
            (ingestion_deployment_for set_owner settings tenant replicas))
          (put_the_processor replicas)

    -- ensureDedicatedPool; true when an object was created.
    unfoldable pub ensure_dedicated_pool : ℤ → ℤ → ℤ → W → W × Result PoolError Bool
    unfolding put_next put_the_ingestion
    ensure_dedicated_pool start count replicas w =
        put_next config_map_failed false
          (api.put_config_map w tenant.namespace (dedicated_config_map_name tenant)
            (config_map_for set_owner settings tenant start count))
          (put_the_ingestion replicas)

  -- The loop over the deletions, which skips an object that is gone.
  delete_next :
      Bool
      → W × Option ApiFailure
      → (W → Bool → W × Result PoolError Bool)
      → W × Result PoolError Bool
  delete_next any_deleted (w, none) next_delete = next_delete w true
  delete_next any_deleted (w, some gone) next_delete = next_delete w any_deleted
  delete_next any_deleted (w, some (other_failure e)) next_delete = (w, err delete_failed)

  unfoldable pub delete_all :
      List (W → W × Option ApiFailure) → W → Bool → W × Result PoolError Bool
  unfolding delete_next
  delete_all [] w any_deleted = (w, ok any_deleted)
  delete_all (delete ∷ deletes) w any_deleted =
      delete_next any_deleted (delete w) (λ w' any. delete_all deletes w' any)

  -- tearDownDedicatedPool; true when an object was deleted.
  unfoldable pub tear_down_dedicated_pool :
      PoolApi W → TradingTenant → W → W × Result PoolError Bool
  unfolding delete_all
  tear_down_dedicated_pool api tenant w =
      delete_all
        ((λ v. api.delete_deployment v tenant.namespace (dedicated_ingestion_name tenant))
          ∷ (λ v. api.delete_deployment v tenant.namespace (dedicated_processor_name tenant))
          ∷ (λ v. api.delete_service v tenant.namespace (dedicated_service_name tenant))
          ∷ (λ v. api.delete_config_map v tenant.namespace (dedicated_config_map_name tenant))
          ∷ [])
        w false
