-- ===== src/Ledger/Storage/StateContract.antt =====
-- The store of reconciled states (internal/ledger/storage/reconciled_state_store.go) against the
-- contract of the repository interface.
use go_transaction_control_p.Ledger.Storage.Upserts.{upsert_row-Written}
use go_transaction_control_p.Ledger.Storage.Contract.{get_faulty}
use go_transaction_control_p.Ledger.Storage.Rows.{find_state_keyed, is_keyed}
use go_transaction_control_p.Ledger.Types.{
  stale_reconciled_state, not_found, RepositoryError, ReconciledState,
}
use go_transaction_control_p.Ledger.Repository.{watermark, Above, SavedAs, IsStateTable}
use go_transaction_control_p.Prelude.{
  List, ◌⊎◌, ◌≡◌, Result, Bytes, false, ok, err, none, some, inl, inr, refl,
}
use go_transaction_control_p.Ledger.Storage.{
  upsert_row, later_faults, state_store, next_fault, Fault, upsert_result, stored_tables,
  find_state, execute, store_upsert, store_get, run_faulty, Database, no_fault, lost_request,
  lost_reply,
}

read_state :
    (d : Database) (tenant instrument : Bytes)
    → let r = store_get d tenant instrument in
      (r.0.transactions ≡ d.transactions)
      × (r.0.states ≡ d.states)
      × ((state : ReconciledState)
          → r.1 ≡ ok state
          → find_state d.states tenant instrument ≡ some state)
      × (r.1 ≡ err not_found → find_state d.states tenant instrument ≡ none)
unfolding store_get execute
read_state d tenant instrument =
    get_faulty (next_fault d.faults) (later_faults d.faults) d
      (λ x. find_state x.states tenant instrument)

-- What Upsert leaves: the states as they were, and then no success and no stale watermark without
-- cause, or the new state under its key, and then no stale watermark.
abbrev KeptOrWritten :
    ReconciledState → Database → Database × Result RepositoryError (Unit {0}) → Type 0
KeptOrWritten state d r =
    (r.0.transactions ≡ d.transactions)
    × (((r.0.states ≡ d.states)
          × (¬ (r.1 ≡ ok tt))
          × (r.1 ≡ err stale_reconciled_state
              → ¬ Above (watermark (find_state d.states state.tenant_id state.instrument))
                  state.last_transaction_id))
        ⊎ ((find_state r.0.states state.tenant_id state.instrument
              ≡ some (record state { updated_at = d.now }))
            × ((tenant instrument : Bytes)
                → is_keyed state tenant instrument ≡ false
                → find_state r.0.states tenant instrument ≡ find_state d.states tenant instrument)
            × Above (watermark (find_state d.states state.tenant_id state.instrument))
                state.last_transaction_id
            × (¬ (r.1 ≡ err stale_reconciled_state))))

upsert_faulty :
    (fault : Fault) (later : List Fault) (d : Database) (state : ReconciledState)
    → let answer = run_faulty fault (upsert_row state) (record d { faults = later }) in
      KeptOrWritten state d (answer.0, upsert_result answer.1)
unfolding run_faulty upsert_result
upsert_faulty lost_request later d state =
    (refl, inl (refl, λ h. absurd (cc h), λ h. absurd (cc h)))
upsert_faulty lost_reply later d state =
    elim (upsert_row-Written state (record d { faults = later })) [
      | inl (t, s, _) ↦ (t, inl (s, λ h. absurd (cc h), λ h. absurd (cc h)))
      | inr (t, f, o, _, a) ↦ (t, inr (f, o, a, λ h. absurd (cc h)))
    ]
upsert_faulty no_fault later d state =
    elim (upsert_row-Written state (record d { faults = later })) [
      | inl (t, s, inl (h, n)) ↦ (t, inl (s, rw h (λ k. absurd (cc k)), λ _. n))
      | inl (t, s, inr (e, h)) ↦ (t, inl (s, rw h (λ k. absurd (cc k)), rw h (λ k. absurd (cc k))))
      | inr (t, f, o, h, a) ↦ (t, inr (f, o, a, rw h (λ k. absurd (cc k))))
    ]

store_upsert_cases :
    (d : Database) (state : ReconciledState) → KeptOrWritten state d (store_upsert d state)
unfolding store_upsert execute
store_upsert_cases d state = upsert_faulty (next_fault d.faults) (later_faults d.faults) d state

upsert_apart :
    (d : Database) (state : ReconciledState) (tenant instrument : Bytes)
    → is_keyed state tenant instrument ≡ false
    → find_state (store_upsert d state).0.states tenant instrument
      ≡ find_state d.states tenant instrument
upsert_apart d state tenant instrument h =
    let (_, cases) = store_upsert_cases d state in
    elim cases [ inl (s, _, _) ↦ rw s refl | inr (_, o, _, _) ↦ o tenant instrument h ]

module _ (d : Database) (state : ReconciledState) where
  upsert_own_swap :
      let before = find_state d.states state.tenant_id state.instrument in
      let after = find_state (store_upsert d state).0.states state.tenant_id state.instrument in
      (after ≡ before) ⊎ (SavedAs state after × Above (watermark before) state.last_transaction_id)
  upsert_own_swap =
      let (_, cases) = store_upsert_cases d state in
      elim cases [ inl (s, _, _) ↦ inl (rw s refl) | inr (f, _, a, _) ↦ inr ((d.now, f), a) ]

  upsert_own_ok :
      (store_upsert d state).1 ≡ ok tt
      → SavedAs state (find_state (store_upsert d state).0.states state.tenant_id state.instrument)
  upsert_own_ok h =
      let (_, cases) = store_upsert_cases d state in
      elim cases [ inl (_, n, _) ↦ absurd (n h) | inr (f, _, _, _) ↦ (d.now, f) ]

  upsert_own_stale :
      (store_upsert d state).1 ≡ err stale_reconciled_state
      → ¬ Above
          (watermark (find_state d.states state.tenant_id state.instrument))
          state.last_transaction_id
  upsert_own_stale h =
      let (_, cases) = store_upsert_cases d state in
      elim cases [ inl (_, _, n) ↦ n h | inr (_, _, _, n) ↦ absurd (n h) ]

-- The store of reconciled states keeps the contract of a compare-and-swap on the watermark of each
-- key, whatever fails between it and the database.
pub state_store-IsStateTable : IsStateTable stored_tables state_store
state_store-IsStateTable = record {
  upsert_keeps_rows = λ d state event. rw (store_upsert_cases d state).0 refl;
  upsert_keeps_others = λ d state tenant instrument h. upsert_apart d state tenant instrument h;
  upsert_swaps = λ d state tenant instrument t i. rw (← t) (rw (← i) (upsert_own_swap d state));
  upsert_ok = λ d state tenant instrument t i h. rw (← t) (rw (← i) (upsert_own_ok d state h));
  upsert_stale =
      λ d state tenant instrument t i h. rw (← t) (rw (← i) (upsert_own_stale d state h));
  get_keeps_rows = λ d tenant instrument event. rw (read_state d tenant instrument).0 refl;
  get_keeps_saved =
      λ d tenant instrument tenant' instrument'. rw (read_state d tenant instrument).1 refl;
  get_ok = λ d tenant instrument state h.
      let found = (read_state d tenant instrument).2 state h in
      let (t, i) = find_state_keyed d.states tenant instrument state found in (found, t, i);
  get_not_found = λ d tenant instrument h. (read_state d tenant instrument).3 h;
}
