-- ===== src/Processor/Success.antt =====
-- A delivery that Reconcile (internal/processor/processor.go) acknowledges has its effect in the
-- tables.
use go_transaction_control_p.Processor.Redelivery.{deliveries-Covered, deliveries}
use go_transaction_control_p.Processor.Rows.{with_row-row}
use go_transaction_control_p.Processor.Effect.{SameSaved, after_upsert-world}
use go_transaction_control_p.Processor.Position.{apply_transaction-position}
use mathlib.Core.Path.{subst}
use go_transaction_control_p.Processor.Delivery.{Covered}
use go_transaction_control_p.Prelude.Int.{◌<ℤ◌, ◌≤ℤ◌, ℤ}
use go_transaction_control_p.Processor.{
  with_row, reconcile, after_lookup, after_insert, after_get, apply_transaction, already_applied,
  TradeError, write_back, fold_in, after_upsert,
}
use go_transaction_control_p.Prelude.{
  ℕ, sym, refl, ◌∙◌, none, inr, ap, ◌⊎◌, inl, err, arith, Bool-cases, true, ok, some, ◌≡◌, Result,
  Option,
}
use go_transaction_control_p.Ledger.Types.{
  flat_state, not_found, duplicate_event, stale_reconciled_state, RepositoryError, Transaction,
  ReconciledState,
}
use go_transaction_control_p.Ledger.Repository.{
  Above, SavedAs, watermark, IsStateTable, IsLedger, ReconciledStateRepository,
  TransactionRepository, Tables,
}

module _ {S : Type 0} (t : Tables S) (txns : TransactionRepository S)
    (states : ReconciledStateRepository S) (ledger : IsLedger t txns)
    (table : IsStateTable t states) where
  abbrev Reached : S → Transaction → Type 0
  Reached = Covered t txns states ledger table

  after_upsert_ok :
      (x : S × Result RepositoryError (Unit {0}))
      → (after_upsert txns states x).1 ≡ ok tt
      → (x.1 ≡ ok tt) ⊎ (x.1 ≡ err stale_reconciled_state)
  unfolding after_upsert
  after_upsert_ok (s, ok tt) h = inl refl
  after_upsert_ok (s, err stale_reconciled_state) h = inr refl
  after_upsert_ok (s, err _) h = cc

  saved-Reached :
      (s : S) (r : Transaction) (w : ℤ)
      → r.id ≤ℤ w
      → watermark (t.saved s r.tenant_id r.instrument) ≡ some w
      → Reached s r
  saved-Reached s r w h e above =
      let below : w <ℤ r.id = subst (λ o. Above o (some r.id)) e above in absurd (omega arith)

  stored-Reached :
      (s : S) (folded : ReconciledState) (r : Transaction)
      → folded.last_transaction_id ≡ some r.id
      → SavedAs folded (t.saved s r.tenant_id r.instrument)
      → Reached s r
  stored-Reached s folded r w stored =
      saved-Reached s r r.id (omega arith) (ap watermark stored.1 ∙ w)

  upsert-Reached :
      (s : S) (folded : ReconciledState) (r : Transaction)
      → folded.tenant_id ≡ r.tenant_id
      → folded.instrument ≡ r.instrument
      → folded.last_transaction_id ≡ some r.id
      → (after_upsert txns states (states.upsert s folded)).1 ≡ ok tt
      → Reached (states.upsert s folded).0 r
  upsert-Reached s folded r et ei ew h = elim (after_upsert_ok (states.upsert s folded) h) [
    | inl done ↦
        stored-Reached (states.upsert s folded).0 folded r ew
          (table.upsert_ok s folded r.tenant_id r.instrument et ei done)
    | inr stale ↦ elim (table.upsert_swaps s folded r.tenant_id r.instrument et ei) [
      | inl same ↦
          subst (λ o. ¬ Above (watermark o) (some r.id)) (sym same)
            (subst (λ o. ¬ Above (watermark (t.saved s r.tenant_id r.instrument)) o) ew
              (table.upsert_stale s folded r.tenant_id r.instrument et ei stale))
      | inr (stored, _) ↦ stored-Reached (states.upsert s folded).0 folded r ew stored
    ]
  ]

  write_back-Reached :
      (s : S) (state : ReconciledState) (r : Transaction)
      (result : Result TradeError ReconciledState)
      → state.tenant_id ≡ r.tenant_id
      → state.instrument ≡ r.instrument
      → apply_transaction state r ≡ result
      → (write_back txns states s result).1 ≡ ok tt
      → Reached (write_back txns states s result).0 r
  unfolding write_back
  write_back-Reached s state r (err e) et ei h done = cc
  write_back-Reached s state r (ok folded) et ei h done =
      let (_, kt, ki, kw, _) = apply_transaction-position state folded r h in
      rw (after_upsert-world t states table txns)
        (upsert-Reached s folded r (kt ∙ et) (ki ∙ ei) kw done)

  already_applied-le :
      (last : Option ℤ) (id : ℤ)
      → already_applied last id ≡ true
      → (w : ℤ) × (last ≡ some w) × (id ≤ℤ w)
  already_applied-le none id h = cc
  already_applied-le (some w) id h = (w, refl, ground arith)

  fold_in-Reached :
      (s : S) (state : ReconciledState) (r : Transaction)
      → state.tenant_id ≡ r.tenant_id
      → state.instrument ≡ r.instrument
      → watermark (t.saved s r.tenant_id r.instrument) ≡ state.last_transaction_id
      → (fold_in txns states s state r).1 ≡ ok tt
      → Reached (fold_in txns states s state r).0 r
  unfolding fold_in
  fold_in-Reached s state r et ei ew =
      elim (Bool-cases (already_applied state.last_transaction_id r.id)) [
        | inl done ↦
            let (w, e, le) = already_applied-le state.last_transaction_id r.id done in
            rw done (λ _. saved-Reached s r w le (ew ∙ e))
        | inr new ↦ rw new (write_back-Reached s state r (apply_transaction state r) et ei refl)
      ]

  after_get-Reached :
      (r : Transaction) (x : S × Result RepositoryError ReconciledState)
      → ((state : ReconciledState)
          → x.1 ≡ ok state
          → (t.saved x.0 r.tenant_id r.instrument ≡ some state)
            × (state.tenant_id ≡ r.tenant_id)
            × (state.instrument ≡ r.instrument))
      → (x.1 ≡ err not_found → t.saved x.0 r.tenant_id r.instrument ≡ none)
      → (after_get txns states r x).1 ≡ ok tt
      → Reached (after_get txns states r x).0 r
  unfolding after_get
  after_get-Reached r (s, ok state) found missing done =
      let (e, et, ei) = found state refl in fold_in-Reached s state r et ei (ap watermark e) done
  after_get-Reached r (s, err not_found) found missing done =
      fold_in-Reached s (flat_state r.tenant_id r.instrument) r refl refl
        (ap watermark (missing refl)) done
  after_get-Reached r (s, err _) found missing done = cc

  with_row-Reached :
      (s : S) (r : Transaction)
      → (with_row txns states s r).1 ≡ ok tt
      → Reached (with_row txns states s r).0 r
  unfolding with_row
  with_row-Reached s r done =
      let same = table.get_keeps_saved s r.tenant_id r.instrument r.tenant_id r.instrument in
      after_get-Reached r (states.get s r.tenant_id r.instrument)
        (λ state e.
          let (saved, et, ei) = table.get_ok s r.tenant_id r.instrument state e in
          (same ∙ saved, et, ei))
        (λ e. same ∙ table.get_not_found s r.tenant_id r.instrument e) done

  -- The row that an acknowledged delivery stands for.
  abbrev Acknowledged : S → Transaction → Type 0
  Acknowledged s' txn = (r : Transaction) × (t.row s' txn.event_id ≡ some r) × Reached s' r

  with_row-Acknowledged :
      (s : S) (r txn : Transaction)
      → t.row s txn.event_id ≡ some r
      → (with_row txns states s r).1 ≡ ok tt
      → Acknowledged (with_row txns states s r).0 txn
  with_row-Acknowledged s r txn stored done = (
    r,
    with_row-row t txns states ledger table s r txn.event_id ∙ stored,
    with_row-Reached s r done,
  )

  after_lookup-Acknowledged :
      (txn : Transaction) (x : S × Result RepositoryError Transaction)
      → ((r : Transaction) → x.1 ≡ ok r → t.row x.0 txn.event_id ≡ some r)
      → (after_lookup txns states x).1 ≡ ok tt
      → Acknowledged (after_lookup txns states x).0 txn
  unfolding after_lookup
  after_lookup-Acknowledged txn (s, ok r) stored done =
      with_row-Acknowledged s r txn (stored r refl) done
  after_lookup-Acknowledged txn (s, err e) stored done = cc

  after_insert-Acknowledged :
      (txn : Transaction) (x : S × Result RepositoryError Transaction)
      → ((r : Transaction) → x.1 ≡ ok r → t.row x.0 txn.event_id ≡ some r)
      → (after_insert txns states txn x).1 ≡ ok tt
      → Acknowledged (after_insert txns states txn x).0 txn
  unfolding after_insert
  after_insert-Acknowledged txn (s, ok r) stored done =
      with_row-Acknowledged s r txn (stored r refl) done
  after_insert-Acknowledged txn (s, err duplicate_event) stored done =
      after_lookup-Acknowledged txn (txns.get_by_event_id s txn.event_id)
        (λ r e.
          ledger.lookup_keeps_rows s txn.event_id txn.event_id
          ∙ ledger.lookup_ok s txn.event_id r e)
        done
  after_insert-Acknowledged txn (s, err _) stored done = cc

  -- Where Reconcile returns no error, the event has a stored row, the watermark of its tenant and
  -- instrument has reached that row, and no number of further deliveries changes a saved state.
  pub reconcile_acknowledged :
      (s : S) (txn : Transaction) (n : ℕ)
      → (reconcile txns states s txn).1 ≡ ok tt
      → let s' = (reconcile txns states s txn).0 in
        (r : Transaction) × (t.row s' txn.event_id ≡ some r)
        × Covered t txns states ledger table s' r
        × SameSaved t s' (deliveries t txns states ledger table n s' txn)
  unfolding reconcile
  reconcile_acknowledged s txn n done =
      let (r, stored, reached) =
        after_insert-Acknowledged txn (txns.insert s txn) (λ r e. (ledger.insert_ok s txn r e).1)
          done in
      (
        r,
        stored,
        reached,
        deliveries-Covered t txns states ledger table n (reconcile txns states s txn).0 txn r stored
            reached,
      )
