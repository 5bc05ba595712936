-- ===== src/Operator/Pool/Settled.antt =====
-- A second pass over the objects of a dedicated pool (operator/internal/controller/dedicated_pool.go).
use mathlib.Core.Path.{subst}
use go_transaction_control_p.Prelude.Int.{ℤ}
use go_transaction_control_p.Operator.Tenant.{TradingTenant}
use go_transaction_control_p.Operator.Pool.{
  component_processor, dedicated_labels, component_ingestion, processor_deployment_for, Container,
  service_for, ingestion_deployment_for, deployment_for, config_map_for, PoolSettings, Labels,
  selector_or,
}
use go_transaction_control_p.Prelude.{
  ◌>>=◌, ◌≡◌, Option, List, Bytes, Result, some, none, ok, err, refl,
}

-- What a mutation made, it makes again.
abbrev pub Settles : {A : Type 0} → (A → Result Bytes A) → Type 0
Settles {A} mutate = (object made : A) → mutate object ≡ ok made → mutate made ≡ ok made

selector_settled :
    (selector : Option Labels) (labels : Labels)
    → selector_or (selector_or selector labels) labels ≡ selector_or selector labels
unfolding selector_or
selector_settled none labels = refl
selector_settled (some selector) labels = refl

pub bind_ok-inv :
    {E A B : Type 0} (m : Result E A) (f : A → B) (made : B)
    → (m >>= λ a. ok (f a)) ≡ ok made
    → (a : A) × (m ≡ ok a) × (f a ≡ made)
bind_ok-inv (ok a) f made h = (a, refl, cc)
bind_ok-inv (err e) f made h = absurd cc

module _ (set_owner : TradingTenant → List Bytes → Result Bytes (List Bytes))
    (settings : PoolSettings) (tenant : TradingTenant)
    (owner_settles : (owners made : List Bytes)
      → set_owner tenant owners ≡ ok made
      → set_owner tenant made ≡ ok made) where
  config_map_for-Settles :
      (start count : ℤ) → Settles (config_map_for set_owner settings tenant start count)
  unfolding config_map_for
  config_map_for-Settles start count object made h =
      let (owners, e, q) = bind_ok-inv (set_owner tenant object.owners) _ made h in
      subst (λ y. config_map_for set_owner settings tenant start count y ≡ ok y) q
        (rw (owner_settles object.owners owners e) refl)

  service_for-Settles : Settles (service_for set_owner settings tenant)
  unfolding service_for
  service_for-Settles object made h =
      let (owners, e, q) = bind_ok-inv (set_owner tenant object.owners) _ made h in
      subst (λ y. service_for set_owner settings tenant y ≡ ok y) q
        (rw (owner_settles object.owners owners e) refl)

  deployment_for-Settles :
      (replicas : ℤ) (component : Bytes) (container : Container)
      → Settles (deployment_for set_owner settings tenant replicas component container)
  unfolding deployment_for
  deployment_for-Settles replicas component container object made h =
      let (owners, e, q) = bind_ok-inv (set_owner tenant object.owners) _ made h in
      subst (λ y. deployment_for set_owner settings tenant replicas component container y ≡ ok y) q
        (rw (owner_settles object.owners owners e)
          (rw (selector_settled object.selector (dedicated_labels tenant component)) refl))

  -- The mutations of a pass, applied again to what they made, change nothing: for each of the four
  -- objects, with the same range and replicas, where setting an owner again changes nothing.
  pub pool-Settles :
      (start count replicas : ℤ)
      → Settles (config_map_for set_owner settings tenant start count)
        × Settles (ingestion_deployment_for set_owner settings tenant replicas)
        × Settles (processor_deployment_for set_owner settings tenant replicas)
        × Settles (service_for set_owner settings tenant)
  unfolding ingestion_deployment_for processor_deployment_for
  pool-Settles start count replicas = (
    config_map_for-Settles start count,
    deployment_for-Settles replicas component_ingestion _,
    deployment_for-Settles replicas component_processor _,
    service_for-Settles,
  )
