-- ===== src/Processor/Delivery.antt =====
-- One delivery of an event (internal/processor/processor.go, Reconcile), over any repositories that
-- keep their contract.
use mathlib.Core.Path.{subst}
use go_transaction_control_p.Processor.Position.{apply_transaction-position}
use go_transaction_control_p.Prelude.Int.{ℤ}
use go_transaction_control_p.Processor.Rows.{reconcile-KeepsRows, with_row-row}
use go_transaction_control_p.Processor.Effect.{
  with_row-Effect, Effect-after_read, SameSaved, FoldedOnce,
}
use go_transaction_control_p.Prelude.{
  some_inj, sym, arith, ap, ◌∙◌, refl, inr, err, ok, inl, ◌⊎◌, some, ◌≡◌, Result,
}
use go_transaction_control_p.Processor.{with_row, reconcile, after_lookup, after_insert}
use go_transaction_control_p.Ledger.Types.{duplicate_event, RepositoryError, Transaction}
use go_transaction_control_p.Ledger.Repository.{
  watermark, Above, IsStateTable, IsLedger, ReconciledStateRepository, TransactionRepository,
  Tables,
}

not-Above_self : (id : ℤ) → ¬ Above (some id) (some id)
not-Above_self id h = omega arith

module _ {S : Type 0} (t : Tables S) (txns : TransactionRepository S)
    (states : ReconciledStateRepository S) (ledger : IsLedger t txns)
    (table : IsStateTable t states) where
  -- What one delivery did: nothing to the saved states, or one fold of the event's row.
  abbrev pub Delivered : S → S → Transaction → Type 0
  Delivered s s' txn =
      SameSaved t s s'
      ⊎ ((r : Transaction) × (t.row s' txn.event_id ≡ some r) × FoldedOnce t s s' r)

  with_row-Delivered :
      (s s₁ : S) (r txn : Transaction)
      → SameSaved t s s₁
      → t.row s₁ txn.event_id ≡ some r
      → Delivered s (with_row txns states s₁ r).0 txn
  with_row-Delivered s s₁ r txn same stored =
      elim (Effect-after_read t s s₁ _ r same (with_row-Effect t states table txns s₁ r)) [
        | inl unchanged ↦ inl unchanged
        | inr once ↦
            inr (r, with_row-row t txns states ledger table s₁ r txn.event_id ∙ stored, once)
      ]

  after_lookup-Delivered :
      (s : S) (txn : Transaction) (x : S × Result RepositoryError Transaction)
      → SameSaved t s x.0
      → ((r : Transaction) → x.1 ≡ ok r → t.row x.0 txn.event_id ≡ some r)
      → Delivered s (after_lookup txns states x).0 txn
  unfolding after_lookup
  after_lookup-Delivered s txn (s₁, ok r) same stored =
      with_row-Delivered s s₁ r txn same (stored r refl)
  after_lookup-Delivered s txn (s₁, err e) same stored = inl same

  after_insert-Delivered :
      (s : S) (txn : Transaction) (x : S × Result RepositoryError Transaction)
      → SameSaved t s x.0
      → ((r : Transaction) → x.1 ≡ ok r → t.row x.0 txn.event_id ≡ some r)
      → Delivered s (after_insert txns states txn x).0 txn
  unfolding after_insert
  after_insert-Delivered s txn (s₁, ok r) same stored =
      with_row-Delivered s s₁ r txn same (stored r refl)
  after_insert-Delivered s txn (s₁, err duplicate_event) same stored =
      after_lookup-Delivered s txn (txns.get_by_event_id s₁ txn.event_id)
        (λ k i. ledger.lookup_keeps_saved s₁ txn.event_id k i ∙ same k i)
        (λ r e.
          ledger.lookup_keeps_rows s₁ txn.event_id txn.event_id
          ∙ ledger.lookup_ok s₁ txn.event_id r e)
  after_insert-Delivered s txn (s₁, err _) same stored = inl same

  pub reconcile-Delivered :
      (s : S) (txn : Transaction) → Delivered s (reconcile txns states s txn).0 txn
  unfolding reconcile
  reconcile-Delivered s txn =
      after_insert-Delivered s txn (txns.insert s txn) (λ k i. ledger.insert_keeps_saved s txn k i)
        (λ r e. (ledger.insert_ok s txn r e).1)

  -- A delivery behind changes of nothing.
  pub Delivered-after_same :
      (s s₁ s' : S) (txn : Transaction)
      → SameSaved t s s₁
      → Delivered s₁ s' txn
      → Delivered s s' txn
  Delivered-after_same s s₁ s' txn same (inl h) = inl (λ k i. h k i ∙ same k i)
  Delivered-after_same s s₁ s' txn same (inr (r, stored, once)) =
      elim (Effect-after_read t s s₁ s' r same (inr once)) [
        | inl h ↦ inl h
        | inr once' ↦ inr (r, stored, once')
      ]

  -- The watermark of the row's key has reached the row.
  abbrev pub Covered : S → Transaction → Type 0
  Covered s r = ¬ Above (watermark (t.saved s r.tenant_id r.instrument)) (some r.id)

  pub FoldedOnce-Covered : (s s' : S) (r : Transaction) → FoldedOnce t s s' r → Covered s' r
  FoldedOnce-Covered s s' r once =
      let reached : watermark (t.saved s' r.tenant_id r.instrument) ≡ some r.id =
        ap watermark once.stored.1 ∙ (apply_transaction-position _ once.folded r once.applied).3 in
      λ above. not-Above_self r.id (subst (λ w. Above w (some r.id)) reached above)

  -- A delivery of an event whose row the watermark has reached changes no saved state.
  pub reconcile-Covered :
      (s : S) (txn r : Transaction)
      → t.row s txn.event_id ≡ some r
      → Covered s r
      → SameSaved t s (reconcile txns states s txn).0
  reconcile-Covered s txn r stored covered = elim (reconcile-Delivered s txn) [
    | inl same ↦ same
    | inr (r', stored', once) ↦
        let keeps = reconcile-KeepsRows t txns states ledger table s txn txn.event_id r stored in
        let same_row : r' ≡ r = some_inj (sym stored' ∙ keeps) in
        absurd (
          covered (
            subst (λ q. Above (watermark (t.saved s q.tenant_id q.instrument)) (some q.id)) same_row
              once.above))
  ]
