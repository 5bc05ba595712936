-- ===== src/Metrics/Labels.antt =====
-- The labels of tenants are bounded (internal/metrics/tenant.go).
use mathlib.Core.List.{Memᴰ}
use mathlib.Core.Path.{subst}
use mathlib.Core.List.Memᴰ
use go_transaction_control_p.Metrics.{
  new_known_tenants, unknown_tenant_label, is_known, tenant_label,
}
use go_transaction_control_p.Prelude.{
  eq_bytes_iff, ◌↔◌, refl, codes, ◌⊎◌, eq_of_eq_bytes, sym, ◌∙◌, ◌||◌, eq_bytes_refl, eq_bytes,
  arith, Bool-cases, ◌≡◌, Bytes, List, true, [], ◌∷◌, inl, inr,
}

absorbed :
    (tenants : List Bytes) (first tenant : Bytes)
    → is_known tenants first ≡ true
    → is_known tenants tenant ≡ (eq_bytes first tenant || is_known tenants tenant)
absorbed tenants first tenant h = elim (Bool-cases (eq_bytes first tenant)) [
  | inl e ↦ rw e (subst (λ x. is_known tenants x ≡ true) (eq_of_eq_bytes first tenant e) h)
  | inr e ↦ rw e refl
]

-- A tenant that was put in is in the set, and no other.
pub is_known-new_known_tenants :
    (tenants : List Bytes) (tenant : Bytes)
    → is_known (new_known_tenants tenants) tenant ≡ is_known tenants tenant
unfolding new_known_tenants is_known
is_known-new_known_tenants [] tenant = refl
is_known-new_known_tenants (first ∷ tenants) tenant =
    elim (Bool-cases (is_known (new_known_tenants tenants) first)) [
      | inl e ↦ rw e (
          is_known-new_known_tenants tenants tenant
          ∙ absorbed tenants first tenant (sym (is_known-new_known_tenants tenants first) ∙ e))
      | inr e ↦ rw e (rw (is_known-new_known_tenants tenants tenant) refl)
    ]

-- A label is the unknown one or one of the known tenants, whatever the tenant that a request names.
pub tenant_label-bounded :
    (known : List Bytes) (tenant : Bytes)
    → is_known (unknown_tenant_label ∷ known) (tenant_label known tenant) ≡ true
unfolding tenant_label is_known
tenant_label-bounded known tenant = elim (Bool-cases (is_known known tenant)) [
  | inl e ↦ rw e (ground arith)
  | inr e ↦ rw e (rw (eq_bytes_refl unknown_tenant_label) refl)
]

-- The label of a tenant: its own identifier if that is one of the known tenants, and "unregistered" if
-- it is none of them.
abbrev pub LabelOf : List Bytes → Bytes → Bytes → Type 0
LabelOf known tenant label =
    (Memᴰ tenant known × (label ≡ tenant))
    ⊎ ((¬ Memᴰ tenant known) × (label ≡ codes "unregistered"))

is_known_iff :
    (known : List Bytes) (tenant : Bytes) → (is_known known tenant ≡ true) ↔ Memᴰ tenant known
unfolding is_known
is_known_iff [] tenant = (λ h. absurd cc, λ m. absurd (Memᴰ.not-nil m))
is_known_iff (first ∷ known) tenant = elim (Bool-cases (eq_bytes first tenant)) [
  | inl e ↦ rw e (λ _. Memᴰ.head (sym (eq_of_eq_bytes first tenant e)), λ _. refl)
  | inr e ↦ rw e (
    λ h. Memᴰ.tail ((is_known_iff known tenant).0 h),
    λ m. elim (Memᴰ.cases_cons m) [
      | inl same ↦ absurd (cc ((eq_bytes_iff first tenant).1 (sym same), e))
      | inr m' ↦ (is_known_iff known tenant).1 m'
    ],
  )
]

pub tenant_label-LabelOf :
    (known : List Bytes) (tenant : Bytes) → LabelOf known tenant (tenant_label known tenant)
unfolding tenant_label
tenant_label-LabelOf known tenant = elim (Bool-cases (is_known known tenant)) [
  | inl e ↦ rw e (inl ((is_known_iff known tenant).0 e, refl))
  | inr e ↦ rw e (inr (λ m. absurd (cc (e, (is_known_iff known tenant).1 m)), refl))
]
