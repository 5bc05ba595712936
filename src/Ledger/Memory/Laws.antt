-- ===== src/Ledger/Memory/Laws.antt =====
-- The in-memory tables keep the contract of the repository interfaces of
-- internal/ledger/ledger.go.
use mathlib.Core.Path.{subst₂}
use go_transaction_control_p.Prelude.Int.{ℤ}
use go_transaction_control_p.Prelude.{
  refl, inr, inl, Bool-cases, ◌⊎◌, Option-cases, ◌&&◌, eq_bytes, false, eq_bytes_refl, true, err,
  eq_bytes_iff, some, arith, ◌≡◌, ok, ap, Result, none, Option, Bytes,
}
use go_transaction_control_p.Ledger.Types.{
  stale_reconciled_state, not_found, RepositoryError, Transaction, ReconciledState,
}
use go_transaction_control_p.Ledger.Repository.{
  SavedAs, IsStateTable, Above, watermark, StoredAs, IsLedger,
}
use go_transaction_control_p.Ledger.Memory.{
  Memory, memory_tables, memory_insert, memory_lookup, advances, memory_upsert, memory_get,
  memory_transactions, memory_states,
}

insert_rows :
    (s : Memory) (txn : Transaction) (event : Bytes) (r : Transaction)
    → s.rows event ≡ some r
    → (memory_insert s txn).0.rows event ≡ some r
unfolding memory_insert
insert_rows s txn event r h = ground (arith, eq_bytes_iff txn.event_id event)

insert_ok_row :
    (s : Memory) (txn r : Transaction)
    → (memory_insert s txn).1 ≡ ok r
    → (s.rows txn.event_id ≡ none)
      × ((memory_insert s txn).0.rows txn.event_id ≡ some r)
      × StoredAs txn r
unfolding memory_insert
insert_ok_row s txn r h = ground (arith, eq_bytes_refl txn.event_id)

insert_states :
    (s : Memory) (txn : Transaction) (tenant instrument : Bytes)
    → (memory_insert s txn).0.states tenant instrument ≡ s.states tenant instrument
unfolding memory_insert
insert_states s txn tenant instrument = ground arith

lookup_world : (s : Memory) (event : Bytes) → (memory_lookup s event).0 ≡ s
unfolding memory_lookup
lookup_world s event = ground arith

lookup_found :
    (s : Memory) (event : Bytes) (r : Transaction)
    → (memory_lookup s event).1 ≡ ok r
    → s.rows event ≡ some r
unfolding memory_lookup
lookup_found s event r h = ground arith

pub memory-IsLedger : IsLedger memory_tables memory_transactions
memory-IsLedger = record {
  insert_keeps_rows = insert_rows;
  insert_keeps_saved = insert_states;
  insert_ok = insert_ok_row;
  lookup_keeps_rows = λ s event other. ap (λ (m : Memory). m.rows other) (lookup_world s event);
  lookup_keeps_saved = λ s event k i. ap (λ (m : Memory). m.states k i) (lookup_world s event);
  lookup_ok = lookup_found;
}

upsert_rows :
    (s : Memory) (state : ReconciledState) (event : Bytes)
    → (memory_upsert s state).0.rows event ≡ s.rows event
unfolding memory_upsert
upsert_rows s state event = ground arith

upsert_others :
    (s : Memory) (state : ReconciledState) (tenant instrument : Bytes)
    → (eq_bytes state.tenant_id tenant && eq_bytes state.instrument instrument) ≡ false
    → (memory_upsert s state).0.states tenant instrument ≡ s.states tenant instrument
unfolding memory_upsert
upsert_others s state tenant instrument h = ground arith

advances-Above : (old new : Option ℤ) → advances old new ≡ true → Above old new
advances-Above none new h = tt
advances-Above (some old) none h = cc
advances-Above (some old) (some new) h = ground arith

not_advances : (old new : Option ℤ) → advances old new ≡ false → ¬ Above old new
not_advances none new h a = cc
not_advances (some old) none h a = a
not_advances (some old) (some new) h a = ground arith

-- Where Upsert writes, the state is the one that Get finds.
upsert_own :
    (s : Memory) (state : ReconciledState)
    → advances (watermark (s.states state.tenant_id state.instrument)) state.last_transaction_id
      ≡ true
    → (memory_upsert s state).0.states state.tenant_id state.instrument ≡ some state
unfolding memory_upsert
upsert_own s state h =
    rw h (ground (arith, eq_bytes_refl state.tenant_id, eq_bytes_refl state.instrument))

upsert_none :
    (s : Memory) (state : ReconciledState)
    → advances (watermark (s.states state.tenant_id state.instrument)) state.last_transaction_id
      ≡ false
    → memory_upsert s state ≡ (s, err stale_reconciled_state)
unfolding memory_upsert
upsert_none s state h = rw h

upsert_tested :
    (s : Memory) (state : ReconciledState)
    → let before = s.states state.tenant_id state.instrument in
      let after = (memory_upsert s state).0.states state.tenant_id state.instrument in
      ((memory_upsert s state).1 ≡ err stale_reconciled_state)
        × (after ≡ before)
        × (¬ Above (watermark before) state.last_transaction_id)
      ⊎ ((memory_upsert s state).1 ≡ ok tt)
        × SavedAs state after
        × Above (watermark before) state.last_transaction_id
unfolding memory_upsert
upsert_tested s state =
    elim (Bool-cases (
      advances (watermark (s.states state.tenant_id state.instrument)) state.last_transaction_id)) [
        | inl writes ↦ inr (
          rw writes refl,
          (state.updated_at, upsert_own s state writes),
          advances-Above _ _ writes,
        )
        | inr stale ↦ inl (
          ap (λ (x : Memory × Result RepositoryError (Unit {0})). x.1) (upsert_none s state stale),
          ap
              (λ (x : Memory × Result RepositoryError (Unit {0})).
                x.0.states state.tenant_id state.instrument)
              (upsert_none s state stale),
          not_advances _ _ stale,
        )
      ]

get_world : (s : Memory) (tenant instrument : Bytes) → (memory_get s tenant instrument).0 ≡ s
unfolding memory_get
get_world s tenant instrument = ground arith

get_found :
    (s : Memory) (tenant instrument : Bytes) (state : ReconciledState)
    → (memory_get s tenant instrument).1 ≡ ok state
    → (s.states tenant instrument ≡ some state)
      × (state.tenant_id ≡ tenant)
      × (state.instrument ≡ instrument)
unfolding memory_get
get_found s tenant instrument state h = elim (Option-cases (s.states tenant instrument)) [
  | inl missing ↦ ground arith
  | inr (found, e) ↦
      ground (arith, eq_bytes_iff found.tenant_id tenant, eq_bytes_iff found.instrument instrument)
]

get_missing :
    (s : Memory) (tenant instrument : Bytes)
    → (memory_get s tenant instrument).1 ≡ err not_found
    → s.states tenant instrument ≡ none
unfolding memory_get
get_missing s tenant instrument h = ground arith

module _ (s : Memory) (state : ReconciledState) where
  abbrev AtKey : (Bytes → Bytes → Type 0) → Type 0
  AtKey P =
      (tenant instrument : Bytes)
      → state.tenant_id ≡ tenant
      → state.instrument ≡ instrument
      → P tenant instrument

  at_key : (P : Bytes → Bytes → Type 0) → P state.tenant_id state.instrument → AtKey P
  at_key P h tenant instrument et ei = subst₂ P et ei h

  swaps_at_key : AtKey (λ k i.
      ((memory_upsert s state).0.states k i ≡ s.states k i)
      ⊎ (SavedAs state ((memory_upsert s state).0.states k i)
          × Above (watermark (s.states k i)) state.last_transaction_id))
  swaps_at_key =
      at_key
        (λ k i.
          ((memory_upsert s state).0.states k i ≡ s.states k i)
          ⊎ (SavedAs state ((memory_upsert s state).0.states k i)
              × Above (watermark (s.states k i)) state.last_transaction_id))
        (elim (upsert_tested s state) [
          | inl (_, same, _) ↦ inl same
          | inr (_, stored, above) ↦ inr (stored, above)
        ])

  ok_at_key :
      (memory_upsert s state).1 ≡ ok tt
      → AtKey (λ k i. SavedAs state ((memory_upsert s state).0.states k i))
  ok_at_key h =
      at_key (λ k i. SavedAs state ((memory_upsert s state).0.states k i))
        (elim (upsert_tested s state) [ inl (stale, _, _) ↦ cc | inr (_, stored, _) ↦ stored ])

  stale_at_key :
      (memory_upsert s state).1 ≡ err stale_reconciled_state
      → AtKey (λ k i. ¬ Above (watermark (s.states k i)) state.last_transaction_id)
  stale_at_key h =
      at_key (λ k i. ¬ Above (watermark (s.states k i)) state.last_transaction_id)
        (elim (upsert_tested s state) [ inl (_, _, below) ↦ below | inr (done, _, _) ↦ cc ])

pub memory-IsStateTable : IsStateTable memory_tables memory_states
memory-IsStateTable = record {
  upsert_keeps_rows = upsert_rows;
  upsert_keeps_others = upsert_others;
  upsert_swaps = swaps_at_key;
  upsert_ok = λ s state k i et ei h. ok_at_key s state h k i et ei;
  upsert_stale = λ s state k i et ei h. stale_at_key s state h k i et ei;
  get_keeps_rows = λ s k i event. ap (λ (m : Memory). m.rows event) (get_world s k i);
  get_keeps_saved = λ s k i k' i'. ap (λ (m : Memory). m.states k' i') (get_world s k i);
  get_ok = get_found;
  get_not_found = get_missing;
}
