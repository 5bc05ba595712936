-- ===== src/Processor/Redelivery.antt =====
-- Kafka's at-least-once delivery (internal/processor/processor.go, Reconcile): one event delivered
-- any number of times, with calls that fail anywhere, over any repositories that keep their
-- contract.
use mathlib.Core.Path.{subst}
use go_transaction_control_p.Processor.Rows.{reconcile-KeepsRows}
use go_transaction_control_p.Processor.{reconcile}
use go_transaction_control_p.Processor.Effect.{FoldedOnce-before_same, SameSaved, KeepsRows}
use go_transaction_control_p.Processor.Delivery.{
  Delivered-after_same, FoldedOnce-Covered, reconcile-Covered, reconcile-Delivered, Covered,
  Delivered,
}
use go_transaction_control_p.Ledger.Types.{Transaction}
use go_transaction_control_p.Prelude.{◌∙◌, sym, refl, inr, zero, some, inl, ◌≡◌, suc, ℕ}
use go_transaction_control_p.Ledger.Repository.{
  watermark, Above, IsStateTable, IsLedger, ReconciledStateRepository, TransactionRepository,
  Tables,
}

module _ {S : Type 0} (t : Tables S) (txns : TransactionRepository S)
    (states : ReconciledStateRepository S) (ledger : IsLedger t txns)
    (table : IsStateTable t states) where
  -- The world behind `n` deliveries.
  abbrev pub deliveries : ℕ → S → Transaction → S
  deliveries zero s txn = s
  deliveries (suc n) s txn = deliveries n (reconcile txns states s txn).0 txn

  deliveries-KeepsRows : (n : ℕ) (s : S) (txn : Transaction) → KeepsRows t s (deliveries n s txn)
  deliveries-KeepsRows zero s txn event r h = h
  deliveries-KeepsRows (suc n) s txn event r h =
      deliveries-KeepsRows n (reconcile txns states s txn).0 txn event r
        (reconcile-KeepsRows t txns states ledger table s txn event r h)

  -- An event whose stored row has an id that the watermark of its tenant and instrument has reached,
  -- be it by a later transaction, is never folded in: no number of deliveries changes a saved state.
  pub deliveries-Covered :
      (n : ℕ) (s : S) (txn r : Transaction)
      → t.row s txn.event_id ≡ some r
      → Covered t txns states ledger table s r
      → SameSaved t s (deliveries n s txn)
  deliveries-Covered zero s txn r stored covered k i = refl
  deliveries-Covered (suc n) s txn r stored covered k i =
      let s₁ = (reconcile txns states s txn).0 in
      let same = reconcile-Covered t txns states ledger table s txn r stored covered in
      deliveries-Covered n s₁ txn r
        (reconcile-KeepsRows t txns states ledger table s txn txn.event_id r stored)
        (subst (λ o. ¬ Above (watermark o) (some r.id)) (sym (same r.tenant_id r.instrument))
          covered)
        k i
      ∙ same k i

  -- However often an event is delivered, and wherever its deliveries fail, the saved states are the
  -- ones before the first delivery, or differ from them by one fold of the event's stored row into
  -- the state of its tenant and instrument.
  pub redelivery_at_most_once :
      (n : ℕ) (s : S) (txn : Transaction)
      → Delivered t txns states ledger table s (deliveries n s txn) txn
  redelivery_at_most_once zero s txn = inl (λ k i. refl)
  redelivery_at_most_once (suc n) s txn =
      let s₁ = (reconcile txns states s txn).0 in
      elim (reconcile-Delivered t txns states ledger table s txn) [
        | inl same ↦
            Delivered-after_same t txns states ledger table s s₁ _ txn same
              (redelivery_at_most_once n s₁ txn)
        | inr (r, stored, once) ↦ inr (
          r,
          deliveries-KeepsRows n s₁ txn txn.event_id r stored,
          FoldedOnce-before_same t s s₁ _ r once (
              deliveries-Covered n s₁ txn r stored
                (FoldedOnce-Covered t txns states ledger table s s₁ r once)),
        )
      ]
