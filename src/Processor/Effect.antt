-- ===== src/Processor/Effect.antt =====
-- What one call of Reconcile (internal/processor/processor.go) can do to the tables.
use go_transaction_control_p.Processor.Position.{apply_transaction-position}
use mathlib.Core.Path.{ap₂, subst₂, subst}
use go_transaction_control_p.Processor.{
  already_applied, TradeError, write_back, with_row, fold_in, after_upsert, after_get,
  apply_transaction,
}
use go_transaction_control_p.Ledger.Types.{
  not_found, RepositoryError, flat_state, Transaction, ReconciledState,
}
use go_transaction_control_p.Prelude.{
  refl, ap, err, Result, Bool-cases, sym, eq_bytes_iff, arith, false, ◌&&◌, none, some, ok, inr,
  eq_bytes, ◌⊎◌, ◌≡◌, ◌∙◌, inl, Bytes, Option,
}
use go_transaction_control_p.Ledger.Repository.{
  TransactionRepository, watermark, Above, SavedAs, IsStateTable, ReconciledStateRepository, Tables,
}

-- The state that Reconcile folds into: the saved one, or a flat one.
abbrev pub base : Option ReconciledState → Bytes → Bytes → ReconciledState
base none tenant instrument = flat_state tenant instrument
base (some state) tenant instrument = state

module _ {S : Type 0} (t : Tables S) where
  -- No saved state has changed.
  abbrev pub SameSaved : S → S → Type 0
  SameSaved s s' =
      (tenant instrument : Bytes) → t.saved s' tenant instrument ≡ t.saved s tenant instrument

  -- No row has been lost or changed.
  abbrev pub KeepsRows : S → S → Type 0
  KeepsRows s s' =
      (event : Bytes) (r : Transaction) → t.row s event ≡ some r → t.row s' event ≡ some r

  -- Between the two worlds the row `r` was folded once into the state of its key, which it was
  -- above, and no other key has changed.
  pub record FoldedOnce (s s' : S) (r : Transaction) : Type 0 where
    pub folded : ReconciledState
    pub applied :
        apply_transaction (base (t.saved s r.tenant_id r.instrument) r.tenant_id r.instrument) r
        ≡ ok folded
    pub stored : SavedAs folded (t.saved s' r.tenant_id r.instrument)
    pub above : Above (watermark (t.saved s r.tenant_id r.instrument)) (some r.id)
    pub others :
        (tenant instrument : Bytes)
        → (eq_bytes r.tenant_id tenant && eq_bytes r.instrument instrument) ≡ false
        → t.saved s' tenant instrument ≡ t.saved s tenant instrument

  abbrev pub Effect : S → S → Transaction → Type 0
  Effect s s' r = SameSaved s s' ⊎ FoldedOnce s s' r

  -- A read in front changes nothing.
  pub Effect-after_read :
      (s s₁ s' : S) (r : Transaction) → SameSaved s s₁ → Effect s₁ s' r → Effect s s' r
  Effect-after_read s s₁ s' r same (inl h) = inl (λ k i. h k i ∙ same k i)
  Effect-after_read s s₁ s' r same (inr f) = inr (record {
    folded = f.folded;
    applied = rw (← same r.tenant_id r.instrument) f.applied;
    stored = f.stored;
    above = rw (← same r.tenant_id r.instrument) f.above;
    others = λ k i ne. f.others k i ne ∙ same k i;
  })

  -- Changes of nothing behind.
  pub FoldedOnce-before_same :
      (s s₁ s' : S) (r : Transaction) → FoldedOnce s s₁ r → SameSaved s₁ s' → FoldedOnce s s' r
  FoldedOnce-before_same s s₁ s' r f same = record {
    folded = f.folded;
    applied = f.applied;
    stored = rw (same r.tenant_id r.instrument) f.stored;
    above = f.above;
    others = λ k i ne. same k i ∙ f.others k i ne;
  }

module _ {S : Type 0} (t : Tables S) (states : ReconciledStateRepository S)
    (table : IsStateTable t states) where
  -- A key is the one that an Upsert writes, or another one.
  same_key :
      (state : ReconciledState) (k i : Bytes)
      → ((eq_bytes state.tenant_id k && eq_bytes state.instrument i) ≡ false)
        ⊎ ((state.tenant_id ≡ k) × (state.instrument ≡ i))
  same_key state k i =
      ground (arith, eq_bytes_iff state.tenant_id k, eq_bytes_iff state.instrument i)

  upsert-unchanged :
      (s : S) (state : ReconciledState) (tenant instrument : Bytes)
      → state.tenant_id ≡ tenant
      → state.instrument ≡ instrument
      → t.saved (states.upsert s state).0 tenant instrument ≡ t.saved s tenant instrument
      → SameSaved t s (states.upsert s state).0
  upsert-unchanged s state tenant instrument et ei h k i = elim (same_key state k i) [
    | inl other ↦ table.upsert_keeps_others s state k i other
    | inr (ek, el) ↦
        subst₂ (λ a b. t.saved (states.upsert s state).0 a b ≡ t.saved s a b) (sym et ∙ ek)
          (sym ei ∙ el) h
  ]

  upsert-Effect :
      (s : S) (folded : ReconciledState) (r : Transaction)
      → folded.tenant_id ≡ r.tenant_id
      → folded.instrument ≡ r.instrument
      → folded.last_transaction_id ≡ some r.id
      → apply_transaction (base (t.saved s r.tenant_id r.instrument) r.tenant_id r.instrument) r
        ≡ ok folded
      → Effect t s (states.upsert s folded).0 r
  upsert-Effect s folded r ek ei el applied =
      elim (table.upsert_swaps s folded r.tenant_id r.instrument ek ei) [
        | inl same ↦ inl (upsert-unchanged s folded r.tenant_id r.instrument ek ei same)
        | inr (stored, above) ↦ inr (record {
          folded = folded;
          applied = applied;
          stored = stored;
          above = subst (Above (watermark (t.saved s r.tenant_id r.instrument))) el above;
          others = λ k i ne.
              table.upsert_keeps_others s folded k i
                (ap₂ (λ a b. eq_bytes a k && eq_bytes b i) ek ei ∙ ne);
        })
      ]

  -- Reconcile with a state at hand, from the write on.
  module _ (txns : TransactionRepository S) where
    pub after_upsert-world :
        (x : S × Result RepositoryError (Unit {0})) → (after_upsert txns states x).0 ≡ x.0
    unfolding after_upsert
    after_upsert-world (s, ok _) = refl
    after_upsert-world (s, err not_found) = refl
    after_upsert-world (s, err _) = refl

    write_back-Effect :
        (s : S) (r : Transaction) (state : ReconciledState)
        (result : Result TradeError ReconciledState)
        → state.tenant_id ≡ r.tenant_id
        → state.instrument ≡ r.instrument
        → base (t.saved s r.tenant_id r.instrument) r.tenant_id r.instrument ≡ state
        → apply_transaction state r ≡ result
        → Effect t s (write_back txns states s result).0 r
    unfolding write_back
    write_back-Effect s r state (err e) et ei eb h = inl (λ k i. refl)
    write_back-Effect s r state (ok folded) et ei eb h =
        let (_, kt, ki, kw, _) = apply_transaction-position state folded r h in
        rw after_upsert-world
          (upsert-Effect s folded r (kt ∙ et) (ki ∙ ei) kw (ap (λ b. apply_transaction b r) eb ∙ h))

    fold_in-Effect :
        (s : S) (r : Transaction) (state : ReconciledState)
        → state.tenant_id ≡ r.tenant_id
        → state.instrument ≡ r.instrument
        → base (t.saved s r.tenant_id r.instrument) r.tenant_id r.instrument ≡ state
        → Effect t s (fold_in txns states s state r).0 r
    unfolding fold_in
    fold_in-Effect s r state et ei eb =
        elim (Bool-cases (already_applied state.last_transaction_id r.id)) [
          | inl done ↦ rw done (inl (λ k i. refl))
          | inr new ↦ rw new (write_back-Effect s r state _ et ei eb refl)
        ]

    after_get-Effect :
        (s : S) (r : Transaction) (x : S × Result RepositoryError ReconciledState)
        → SameSaved t s x.0
        → ((state : ReconciledState)
            → x.1 ≡ ok state
            → (t.saved s r.tenant_id r.instrument ≡ some state)
              × (state.tenant_id ≡ r.tenant_id)
              × (state.instrument ≡ r.instrument))
        → (x.1 ≡ err not_found → t.saved s r.tenant_id r.instrument ≡ none)
        → Effect t s (after_get txns states r x).0 r
    unfolding after_get
    after_get-Effect s r (s₁, ok state) same found missing =
        let (e, et, ei) = found state refl in
        Effect-after_read t s s₁ _ r same (
          fold_in-Effect s₁ r state et ei
            (ap (λ o. base o r.tenant_id r.instrument) (same r.tenant_id r.instrument ∙ e)))
    after_get-Effect s r (s₁, err not_found) same found missing =
        Effect-after_read t s s₁ _ r same (
          fold_in-Effect s₁ r (flat_state r.tenant_id r.instrument) refl refl (
            ap (λ o. base o r.tenant_id r.instrument)
              (same r.tenant_id r.instrument ∙ missing refl)))
    after_get-Effect s r (s₁, err _) same found missing = inl same

    pub with_row-Effect : (s : S) (r : Transaction) → Effect t s (with_row txns states s r).0 r
    unfolding with_row
    with_row-Effect s r =
        after_get-Effect s r (states.get s r.tenant_id r.instrument)
          (λ k i. table.get_keeps_saved s r.tenant_id r.instrument k i)
          (λ state e. table.get_ok s r.tenant_id r.instrument state e)
          (λ e. table.get_not_found s r.tenant_id r.instrument e)
