-- ===== src/Operator/Reconcile/Reconciled.antt =====
-- What a pass that ends without an error did, call by call
-- (operator/internal/controller/tradingtenant_controller.go, Reconcile).
use mathlib.Core.Path.{subst}
use go_transaction_control_p.Operator.Reconcile.{
  count_failed, status_failed, p99_failed, read_failed, lag_failed, write_status, act,
  reconcile_tenant, observe, isolate_now, after_status, after_read, PassError, pool_failed,
  start_failed, release, provision, isolation_failed, proceed, Returned,
}
use go_transaction_control_p.Prelude.Int.{ℤ}
use go_transaction_control_p.Operator.{TradingTenantState, event_type_for_state, ReconcileDecision}
use go_transaction_control_p.Operator.Tenant.{TradingTenant}
use go_transaction_control_p.Operator.Reconcile.{
  dedicated_pool_torn_down, state_changed, same_state, dedicated_pool_provisioned, record_if,
  dedicated_pool_created, with_decision, mark_isolated, map_failed, decision_of, label_name,
  Signals, place, isolate, mapped, and_then, Controller,
}
use go_transaction_control_p.Prelude.{
  Bytes, ◌∙◌, Option, ◌⊎◌, if◌then◌else◌, not, Bool, ◌&&◌, ap, ◌≡◌, Result, true, false, some, none,
  ok, err, inl, inr, refl,
}
use go_transaction_control_p.Operator.PartitionMap.{
  remove_entry, ensure_entry, Mutated, failed, done, racing,
}
use go_transaction_control_p.Operator.Pool.{
  ApiFailure, tear_down_dedicated_pool, ensure_dedicated_pool, gone, other_failure,
}

module _ {W : Type 0} where
  proceed-inv :
      {E A B : Type 0} (e : PassError) (x : W × Result E A) (k : W → A → Returned W B) (w' : W)
      (b : B)
      → proceed e x k ≡ (w', ok b)
      → (v : W) × (a : A) × (x ≡ (v, ok a)) × (k v a ≡ (w', ok b))
  unfolding proceed
  proceed-inv e (w, err x) k w' b h = absurd (let q : err e ≡ ok b = ap (λ o. o.1) h in cc)
  proceed-inv e (w, ok a) k w' b h = (w, a, refl, h)

  and_then-inv :
      {A B : Type 0} (x : Returned W A) (k : W → A → Returned W B) (w' : W) (b : B)
      → and_then x k ≡ (w', ok b)
      → (v : W) × (a : A) × (x ≡ (v, ok a)) × (k v a ≡ (w', ok b))
  unfolding and_then
  and_then-inv (w, err x) k w' b h = absurd (let q : err x ≡ ok b = ap (λ o. o.1) h in cc)
  and_then-inv (w, ok a) k w' b h = (w, a, refl, h)

  mapped-inv : (r : Mutated W) (w' : W) → mapped r ≡ (w', ok tt) → r ≡ done w'
  unfolding mapped
  mapped-inv (done w) w' h = ap (λ o. done o.0) h
  mapped-inv (failed w e) w' h = absurd (let q : err map_failed ≡ ok tt = ap (λ o. o.1) h in cc)
  mapped-inv (racing w) w' h = absurd (let q : err map_failed ≡ ok tt = ap (λ o. o.1) h in cc)

if-inv :
    {A : Type 0} (b : Bool) (x y z : A)
    → (if b then x else y) ≡ z
    → ((b ≡ true) × (x ≡ z)) ⊎ ((b ≡ false) × (y ≡ z))
if-inv true x y z h = inl (refl, h)
if-inv false x y z h = inr (refl, h)

abbrev the_ok : {A : Type 0} → A → Result PassError A
the_ok a = ok a

abbrev the_return : {W A : Type 0} → W → A → Returned W A
the_return w a = (w, ok a)

returned_inj :
    {W A : Type 0} (w w' : W) (a b : A) → (the_return w a) ≡ (the_return w' b) → (w ≡ w') × (a ≡ b)
returned_inj w w' a b h = (ap (λ o. o.0) h, let q : the_ok a ≡ the_ok b = ap (λ o. o.1) h in cc)

module _ {W : Type 0} (env : Controller W) where
  -- The object that the pass goes on with: the one that it read, or the server's answer to the
  -- isolation of a tenant that was not isolated.
  pub data Isolates (tenant : TradingTenant) (decision : ReconcileDecision)
      : W → W → TradingTenant → Type 0 where
    left_alone :
        {w : W}
        → (decision.set_dedicated_node_pool && not tenant.spec.dedicated_node_pool) ≡ false
        → Isolates tenant decision w w tenant
    isolates :
        {w v : W} (answered : TradingTenant)
        → (decision.set_dedicated_node_pool && not tenant.spec.dedicated_node_pool) ≡ true
        → env.update_tenant w (mark_isolated tenant) ≡ (v, ok answered)
        → Isolates tenant decision w
            (env.record_transition v answered dedicated_pool_created)
            answered

  -- The dedicated resources with the published range, or their removal with that of the range.
  pub data Places (tenant : TradingTenant) (decision : ReconcileDecision) (count : ℤ)
      : W → W → Type 0 where
    provisions :
        {w v u w' : W} (start : ℤ) (any_created : Bool)
        → tenant.spec.dedicated_node_pool ≡ true
        → env.observed_partition_start w (label_name env) tenant.tenant_id ≡ (v, ok start)
        → ensure_dedicated_pool env.set_owner env.settings env.pool_api tenant start count
            decision.replicas v
          ≡ (u, ok any_created)
        → ensure_entry env.map_api tenant.namespace tenant.tenant_id
            (record { start = start; count = count })
            env.map_rounds
            (record_if env any_created u tenant dedicated_pool_provisioned)
          ≡ done w'
        → Places tenant decision count w w'
    releases :
        {w u w' : W} (any_deleted : Bool)
        → tenant.spec.dedicated_node_pool ≡ false
        → tear_down_dedicated_pool env.pool_api tenant w ≡ (u, ok any_deleted)
        → remove_entry env.map_api tenant.namespace tenant.tenant_id env.map_rounds
            (record_if env any_deleted u tenant dedicated_pool_torn_down)
          ≡ done w'
        → Places tenant decision count w w'

  -- A whole pass over a tenant that is there.
  pub data Reconciled : W → W → Type 0 where
    reconciles :
        {w w1 w2 w3 w4 w5 w6 w7 : W} (tenant moved : TradingTenant) (signals : Signals)
        → env.get_tenant w ≡ (w1, ok tenant)
        → env.observed_kafka_lag w1 (label_name env) tenant.tenant_id ≡ (w2, ok signals.lag)
        → env.observed_p99_ms w2 (label_name env) tenant.tenant_id ≡ (w3, ok signals.p99_ms)
        → env.observed_partition_count w3 (label_name env) tenant.tenant_id
          ≡ (w4, ok signals.partition_count)
        → Isolates tenant (decision_of tenant signals) w4 w5 moved
        → Places moved (decision_of tenant signals) signals.partition_count w5 w6
        → env.update_status w6
            (with_decision moved (decision_of tenant signals) signals (env.now w6))
          ≡ (w7, none)
        → Reconciled w (
            record_if env
              (not (same_state tenant.status.state (decision_of tenant signals).state))
              w7
              (with_decision moved (decision_of tenant signals) signals (env.now w6))
              (state_changed tenant.status.state
                (decision_of tenant signals).state
                (event_type_for_state (decision_of tenant signals).state)))

  isolate-Isolates :
      (tenant moved : TradingTenant) (decision : ReconcileDecision) (w w' : W)
      → isolate env tenant decision w ≡ (w', ok moved)
      → Isolates tenant decision w w' moved
  unfolding isolate isolate_now
  isolate-Isolates tenant moved decision w w' h =
      elim (if-inv (decision.set_dedicated_node_pool && not tenant.spec.dedicated_node_pool)
        (isolate_now env tenant w) (w, ok tenant) (w', ok moved) h) [
          | inl (t, q) ↦
              let (v, answered, u, r) = proceed-inv isolation_failed _ _ w' moved q in
              let (x, y) = returned_inj _ w' answered moved r in
              subst (λ z. Isolates tenant decision w z moved) x
                (subst
                  (Isolates tenant decision w
                    (env.record_transition v answered dedicated_pool_created))
                  y (isolates answered t u))
          | inr (t, q) ↦
              let (x, y) = returned_inj w w' tenant moved q in
              subst (λ z. Isolates tenant decision w z moved) x
                (subst (Isolates tenant decision w w) y (left_alone t))
        ]

  place-Places :
      (tenant : TradingTenant) (decision : ReconcileDecision) (count : ℤ) (w w' : W)
      → place env tenant decision count w ≡ (w', ok tt)
      → Places tenant decision count w w'
  unfolding place provision release
  place-Places tenant decision count w w' h =
      elim (if-inv tenant.spec.dedicated_node_pool (provision env tenant decision count w)
        (release env tenant w) (w', ok tt) h) [
          | inl (t, q) ↦
              let (v, start, o, r) = proceed-inv start_failed _ _ w' tt q in
              let (u, any_created, c, m) = proceed-inv pool_failed _ _ w' tt r in
              provisions start any_created t o c (mapped-inv _ w' m)
          | inr (t, q) ↦
              let (u, any_deleted, c, m) = proceed-inv pool_failed _ _ w' tt q in
              releases any_deleted t c (mapped-inv _ w' m)
        ]

  after_status-inv :
      (old : Option TradingTenantState) (tenant : TradingTenant) (state : TradingTenantState)
      (x : W × Option Bytes) (w' : W) (delay : ℤ)
      → after_status env old tenant state x ≡ (w', ok delay)
      → (v : W) × (x ≡ (v, none))
        × (record_if env
              (not (same_state old state))
              v
              tenant
              (state_changed old state (event_type_for_state state))
            ≡ w')
  unfolding after_status
  after_status-inv old tenant state (w, some e) w' delay h =
      absurd (let q : err status_failed ≡ the_ok delay = ap (λ o. o.1) h in cc)
  after_status-inv old tenant state (w, none) w' delay h = (w, refl, ap (λ o. o.0) h)

  -- The calls behind the reading of the tenant.
  observe-Reconciled :
      (w w1 w' : W) (tenant : TradingTenant) (delay : ℤ)
      → env.get_tenant w ≡ (w1, ok tenant)
      → observe env tenant w1 ≡ (w', ok delay)
      → Reconciled w w'
  unfolding observe act write_status
  observe-Reconciled w w1 w' tenant delay g h =
      let (w2, lag, hl, h2) = proceed-inv lag_failed _ _ w' delay h in
      let (w3, p99_ms, hp, h3) = proceed-inv p99_failed _ _ w' delay h2 in
      let (w4, count, hc, h4) = proceed-inv count_failed _ _ w' delay h3 in
      let signals : Signals = record { lag = lag; p99_ms = p99_ms; partition_count = count } in
      let decision = decision_of tenant signals in
      let (w5, moved, hi, h5) = and_then-inv (isolate env tenant decision w4) _ w' delay h4 in
      let (w6, unit, ha, h6) = and_then-inv (place env moved decision count w5) _ w' delay h5 in
      let (w7, hs, e) =
        after_status-inv tenant.status.state (with_decision moved decision signals (env.now w6))
          decision.state _ w' delay h6 in
      subst (Reconciled w) e (
        reconciles tenant moved signals g hl hp hc (isolate-Isolates tenant moved decision w4 w5 hi)
          (place-Places moved decision count w5 w6 ha) hs)

  after_read-Reconciled :
      (w w' : W) (x : W × Result ApiFailure TradingTenant) (delay : ℤ)
      → env.get_tenant w ≡ x
      → after_read env x ≡ (w', ok delay)
      → (env.get_tenant w ≡ (w', err gone)) ⊎ Reconciled w w'
  unfolding after_read
  after_read-Reconciled w w' (v, err gone) delay g h = inl (g ∙ ap (λ o. (o.0, err gone)) h)
  after_read-Reconciled w w' (v, err (other_failure e)) delay g h =
      absurd (let q : err read_failed ≡ the_ok delay = ap (λ o. o.1) h in cc)
  after_read-Reconciled w w' (v, ok tenant) delay g h =
      inr (observe-Reconciled w v w' tenant delay g h)

  -- A pass that ends without an error found the tenant gone, or made all its calls with success,
  -- in this order: it observed the three signals; isolated a tenant that the decision on them
  -- isolates and that was not isolated; provisioned and published an isolated tenant's
  -- resources, and removed those of any other; wrote the status, which is the decision with the
  -- signals; and recorded the transition of a state that has changed.
  pub reconcile_tenant-Reconciled :
      (w w' : W) (delay : ℤ)
      → reconcile_tenant env w ≡ (w', ok delay)
      → (env.get_tenant w ≡ (w', err gone)) ⊎ Reconciled w w'
  unfolding reconcile_tenant
  reconcile_tenant-Reconciled w w' delay h =
      after_read-Reconciled w w' (env.get_tenant w) delay refl h
