-- ===== src/Processor/Rows.antt =====
-- No call of Reconcile (internal/processor/processor.go) loses or changes a stored row.
use go_transaction_control_p.Processor.Effect.{after_upsert-world, KeepsRows}
use go_transaction_control_p.Prelude.{inr, refl, inl, err, ok, Bool-cases, ◌≡◌, ◌∙◌, Bytes, Result}
use go_transaction_control_p.Ledger.Types.{
  not_found, flat_state, duplicate_event, RepositoryError, Transaction, ReconciledState,
}
use go_transaction_control_p.Processor.{
  apply_transaction, already_applied, TradeError, write_back, with_row, reconcile, fold_in,
  after_lookup, after_insert, after_get,
}
use go_transaction_control_p.Ledger.Repository.{
  IsStateTable, IsLedger, ReconciledStateRepository, TransactionRepository, Tables,
}

module _ {S : Type 0} (t : Tables S) (txns : TransactionRepository S)
    (states : ReconciledStateRepository S) (ledger : IsLedger t txns)
    (table : IsStateTable t states) where
  write_back-row :
      (s : S) (result : Result TradeError ReconciledState) (event : Bytes)
      → t.row (write_back txns states s result).0 event ≡ t.row s event
  unfolding write_back
  write_back-row s (ok folded) event =
      rw (after_upsert-world t states table txns) (table.upsert_keeps_rows s folded event)
  write_back-row s (err e) event = refl

  fold_in-row :
      (s : S) (state : ReconciledState) (r : Transaction) (event : Bytes)
      → t.row (fold_in txns states s state r).0 event ≡ t.row s event
  unfolding fold_in
  fold_in-row s state r event = elim (Bool-cases (already_applied state.last_transaction_id r.id)) [
    | inl done ↦ rw done refl
    | inr new ↦ rw new (write_back-row s (apply_transaction state r) event)
  ]

  after_get-row :
      (r : Transaction) (x : S × Result RepositoryError ReconciledState) (event : Bytes)
      → t.row (after_get txns states r x).0 event ≡ t.row x.0 event
  unfolding after_get
  after_get-row r (s, ok state) event = fold_in-row s state r event
  after_get-row r (s, err not_found) event =
      fold_in-row s (flat_state r.tenant_id r.instrument) r event
  after_get-row r (s, err _) event = refl

  pub with_row-row :
      (s : S) (r : Transaction) (event : Bytes)
      → t.row (with_row txns states s r).0 event ≡ t.row s event
  unfolding with_row
  with_row-row s r event =
      after_get-row r (states.get s r.tenant_id r.instrument) event
      ∙ table.get_keeps_rows s r.tenant_id r.instrument event

  after_lookup-row :
      (x : S × Result RepositoryError Transaction) (event : Bytes)
      → t.row (after_lookup txns states x).0 event ≡ t.row x.0 event
  unfolding after_lookup
  after_lookup-row (s, ok r) event = with_row-row s r event
  after_lookup-row (s, err e) event = refl

  after_insert-row :
      (txn : Transaction) (x : S × Result RepositoryError Transaction) (event : Bytes)
      → t.row (after_insert txns states txn x).0 event ≡ t.row x.0 event
  unfolding after_insert
  after_insert-row txn (s, ok r) event = with_row-row s r event
  after_insert-row txn (s, err duplicate_event) event =
      after_lookup-row (txns.get_by_event_id s txn.event_id) event
      ∙ ledger.lookup_keeps_rows s txn.event_id event
  after_insert-row txn (s, err _) event = refl

  pub reconcile-KeepsRows :
      (s : S) (txn : Transaction) → KeepsRows t s (reconcile txns states s txn).0
  unfolding reconcile
  reconcile-KeepsRows s txn event r h =
      after_insert-row txn (txns.insert s txn) event ∙ ledger.insert_keeps_rows s txn event r h
