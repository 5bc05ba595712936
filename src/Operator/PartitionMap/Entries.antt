-- ===== src/Operator/PartitionMap/Entries.antt =====
-- Reading a map after an entry was set or erased (operator/internal/controller/tenant_partition_map.go).
use mathlib.Core.Path.{subst}
use go_transaction_control_p.Prelude.{
  All, if◌then◌else◌, ap, ◌∙◌, sym, eq_of_eq_bytes, eq_bytes_refl,
}
use go_transaction_control_p.Operator.PartitionMap.{set_entry, erase_entry}
use go_transaction_control_p.Ingestion.Partitioner.{lookup}
use go_transaction_control_p.Prelude.{
  Bool-cases, ◌≡◌, eq_bytes, List, ◌≢◌, Bytes, false, some, none, [], ◌∷◌, inl, inr, refl,
}

other_key : (k key : Bytes) → k ≢ key → eq_bytes k key ≡ false
other_key k key d = elim (Bool-cases (eq_bytes k key)) [
  | inl h ↦ absurd (d (eq_of_eq_bytes k key h))
  | inr h ↦ h
]

module _ {A : Type 0} where
  pub lookup-set_entry :
      (key : Bytes) (a : A) (entries : List (Bytes × A))
      → lookup (set_entry key a entries) key ≡ some a
  unfolding lookup set_entry
  lookup-set_entry key a [] = rw (eq_bytes_refl key) refl
  lookup-set_entry key a ((k, b) ∷ entries) = elim (Bool-cases (eq_bytes k key)) [
    | inl h ↦ rw h (rw h refl)
    | inr h ↦ rw h (rw h (lookup-set_entry key a entries))
  ]

  pub lookup-set_entry_other :
      (key other : Bytes) (a : A) (entries : List (Bytes × A))
      → key ≢ other
      → lookup (set_entry key a entries) other ≡ lookup entries other
  unfolding lookup set_entry
  lookup-set_entry_other key other a [] d = rw (other_key key other d) refl
  lookup-set_entry_other key other a ((k, b) ∷ entries) d = elim (Bool-cases (eq_bytes k key)) [
    | inl h ↦ rw h (rw (other_key k other (λ e. d (sym (eq_of_eq_bytes k key h) ∙ e))) refl)
    | inr h ↦ rw h (
        ap (λ r. if eq_bytes k other then some b else r)
          (lookup-set_entry_other key other a entries d))
  ]

  pub lookup-erase_entry :
      (key : Bytes) (entries : List (Bytes × A)) → lookup (erase_entry key entries) key ≡ none
  unfolding lookup erase_entry
  lookup-erase_entry key [] = refl
  lookup-erase_entry key ((k, b) ∷ entries) = elim (Bool-cases (eq_bytes k key)) [
    | inl h ↦ rw h (lookup-erase_entry key entries)
    | inr h ↦ rw h (rw h (lookup-erase_entry key entries))
  ]

  pub lookup-erase_entry_other :
      (key other : Bytes) (entries : List (Bytes × A))
      → key ≢ other
      → lookup (erase_entry key entries) other ≡ lookup entries other
  unfolding lookup erase_entry
  lookup-erase_entry_other key other [] d = refl
  lookup-erase_entry_other key other ((k, b) ∷ entries) d = elim (Bool-cases (eq_bytes k key)) [
    | inl h ↦ rw h (
        rw (other_key k other (λ e. d (sym (eq_of_eq_bytes k key h) ∙ e)))
          (lookup-erase_entry_other key other entries d))
    | inr h ↦ rw h (
        ap (λ r. if eq_bytes k other then some b else r)
          (lookup-erase_entry_other key other entries d))
  ]

  -- What holds of every entry holds of them after one that it holds of was set, or one was erased.
  pub set_entry-All :
      (P : Bytes × A → Type 0) (key : Bytes) (a : A) (entries : List (Bytes × A))
      → P (key, a)
      → All P entries
      → All P (set_entry key a entries)
  unfolding set_entry
  set_entry-All P key a [] p h = (p, tt)
  set_entry-All P key a ((k, b) ∷ entries) p (q, h) = elim (Bool-cases (eq_bytes k key)) [
    | inl e ↦ rw e (subst (λ x. P (x, a)) (sym (eq_of_eq_bytes k key e)) p, h)
    | inr e ↦ rw e (q, set_entry-All P key a entries p h)
  ]

  pub erase_entry-All :
      (P : Bytes × A → Type 0) (key : Bytes) (entries : List (Bytes × A))
      → All P entries
      → All P (erase_entry key entries)
  unfolding erase_entry
  erase_entry-All P key [] h = tt
  erase_entry-All P key ((k, b) ∷ entries) (q, h) = elim (Bool-cases (eq_bytes k key)) [
    | inl e ↦ rw e (erase_entry-All P key entries h)
    | inr e ↦ rw e (q, erase_entry-All P key entries h)
  ]
