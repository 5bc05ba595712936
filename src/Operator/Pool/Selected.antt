-- ===== src/Operator/Pool/Selected.antt =====
-- Which pods the service and the deployments of a dedicated pool select
-- (operator/internal/controller/dedicated_pool.go).
use go_transaction_control_p.Operator.Pool.Settled.{bind_ok-inv}
use go_transaction_control_p.Prelude.Int.{ℤ}
use go_transaction_control_p.Ledger.Amount.{is_empty}
use go_transaction_control_p.Operator.Tenant.{TradingTenant}
use go_transaction_control_p.Ingestion.Partitioner.{lookup}
use go_transaction_control_p.Operator.Pool.{
  selector_or, Deployment, Container, processor_deployment_for, Service, service_for,
  ingestion_deployment_for, deployment_for, PoolSettings, component_processor, component_ingestion,
  label_component, label_tenant, dedicated_labels, Labels,
}
use go_transaction_control_p.Prelude.{
  arith, ◌∙◌, ap, ℕ, sym, Result, ◌≢◌, Option, List, ◌≡◌, eq_bytes, Bytes, All, false, some, none,
  ok, [], ◌∷◌, refl,
}

-- A label selector selects the pods that have each of its labels.
abbrev pub HasLabel : Labels → Bytes × Bytes → Type 0
HasLabel pod (key, value) = lookup pod key ≡ some value

abbrev pub Selects : Labels → Labels → Type 0
Selects selector pod = All (HasLabel pod) selector

labels_select :
    (tenant : TradingTenant) (component : Bytes)
    → is_empty component ≡ false
    → Selects (dedicated_labels tenant component) (dedicated_labels tenant component)
unfolding dedicated_labels lookup eq_bytes
labels_select tenant component h = rw h (refl, (refl, (refl, tt)))

component_of :
    (tenant : TradingTenant) (component : Bytes)
    → is_empty component ≡ false
    → lookup (dedicated_labels tenant component) label_component ≡ some component
unfolding dedicated_labels lookup eq_bytes
component_of tenant component h = rw h refl

tenant_of :
    (tenant : TradingTenant) (component : Bytes)
    → lookup (dedicated_labels tenant component) label_tenant ≡ some tenant.tenant_id
unfolding dedicated_labels lookup eq_bytes
tenant_of tenant [] = refl
tenant_of tenant (c ∷ component) = refl

first_byte : Option Bytes → ℕ
first_byte none = 0
first_byte (some []) = 0
first_byte (some (c ∷ s)) = c

components_differ : some component_ingestion ≢ some component_processor
unfolding first_byte
components_differ e = absurd (
    let f : first_byte (some component_ingestion) ≡ first_byte (some component_processor) =
      ap first_byte e in
    omega (arith, f))

-- The labels of a tenant's ingestion pods select no processor pod, and no pod of another tenant.
other_component :
    (tenant : TradingTenant)
    → ¬ Selects
        (dedicated_labels tenant component_ingestion)
        (dedicated_labels tenant component_processor)
unfolding dedicated_labels
other_component tenant h =
    components_differ (sym h.0 ∙ component_of tenant component_processor refl)

same_id : {a b : Bytes} → some a ≡ some b → a ≡ b
same_id h = cc

other_tenant :
    (tenant other : TradingTenant) (component : Bytes)
    → tenant.tenant_id ≢ other.tenant_id
    → ¬ Selects (dedicated_labels tenant component_ingestion) (dedicated_labels other component)
unfolding dedicated_labels
other_tenant tenant other component d h = d (same_id (sym h.1.0 ∙ tenant_of other component))

module _ (set_owner : TradingTenant → List Bytes → Result Bytes (List Bytes))
    (settings : PoolSettings) where
  service_selector :
      (tenant : TradingTenant) (object made : Service)
      → service_for set_owner settings tenant object ≡ ok made
      → made.selector ≡ dedicated_labels tenant component_ingestion
  unfolding service_for
  service_selector tenant object made h =
      let (owners, e, q) = bind_ok-inv (set_owner tenant object.owners) _ made h in
      ap (λ y. y.selector) (sym q)

  -- A pod template with its labels, and the selector that a deployment keeps or gets.
  deployment_labels :
      (tenant : TradingTenant) (replicas : ℤ) (component : Bytes) (container : Container)
      (object made : Deployment)
      → deployment_for set_owner settings tenant replicas component container object ≡ ok made
      → (made.template_labels ≡ dedicated_labels tenant component)
        × (made.selector ≡ selector_or object.selector (dedicated_labels tenant component))
  unfolding deployment_for
  deployment_labels tenant replicas component container object made h =
      let (owners, e, q) = bind_ok-inv (set_owner tenant object.owners) _ made h in
      (ap (λ y. y.template_labels) (sym q), ap (λ y. y.selector) (sym q))

  -- A tenant's service selects the pods of the tenant's ingestion deployment; it selects no pod of
  -- the tenant's processor deployment, and no pod of the ingestion deployment of a tenant with
  -- another identifier.
  pub service_for-Selects :
      (tenant other : TradingTenant) (replicas : ℤ) (s service : Service)
      (d ingestion p processor o foreign : Deployment)
      → tenant.tenant_id ≢ other.tenant_id
      → service_for set_owner settings tenant s ≡ ok service
      → ingestion_deployment_for set_owner settings tenant replicas d ≡ ok ingestion
      → processor_deployment_for set_owner settings tenant replicas p ≡ ok processor
      → ingestion_deployment_for set_owner settings other replicas o ≡ ok foreign
      → Selects service.selector ingestion.template_labels
        × (¬ Selects service.selector processor.template_labels)
        × (¬ Selects service.selector foreign.template_labels)
  unfolding ingestion_deployment_for processor_deployment_for
  service_for-Selects tenant other replicas s service d ingestion p processor o foreign differ hs hd
        hp ho =
      let ls = service_selector tenant s service hs in
      let ld = (deployment_labels tenant replicas component_ingestion _ d ingestion hd).0 in
      let lp = (deployment_labels tenant replicas component_processor _ p processor hp).0 in
      let lo = (deployment_labels other replicas component_ingestion _ o foreign ho).0 in
      rw ls (
        rw ld (
          rw lp (
            rw lo (
              labels_select tenant component_ingestion refl,
              other_component tenant,
              other_tenant tenant other component_ingestion differ,
            ))))
