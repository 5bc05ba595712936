-- ===== src/Ledger/Repository.antt =====
-- The repository interfaces of internal/ledger/ledger.go over a world `S` of stored tables, and the
-- contract that their comments state. A call that fails with an unexpected error may have lost its
-- request or its reply, so the contract lets it have written or not.
use go_transaction_control_p.Prelude.{
  Bytes, List, Option, none, some, Result, ok, err, ◌≡◌, ◌⊎◌, eq_bytes, ◌&&◌, false,
}
use go_transaction_control_p.Prelude.Int.{ℤ, ◌<ℤ◌}
use go_transaction_control_p.Ledger.Types.{
  Time, Transaction, ReconciledState, RepositoryError, not_found, stale_reconciled_state,
}

pub record TransactionRepository (S : Type 0) : Type 0 where
  pub insert : S → Transaction → S × Result RepositoryError Transaction
  pub get_by_event_id : S → Bytes → S × Result RepositoryError Transaction
  pub list_by_tenant : S → Bytes → Time → S × Result RepositoryError (List Transaction)

pub record ReconciledStateRepository (S : Type 0) : Type 0 where
  pub upsert : S → ReconciledState → S × Result RepositoryError (Unit {0})
  pub get : S → Bytes → Bytes → S × Result RepositoryError ReconciledState

-- What the tables hold: the row of an event, and the saved state of a tenant's instrument.
pub record Tables (S : Type 0) : Type 0 where
  pub row : S → Bytes → Option Transaction
  pub saved : S → Bytes → Bytes → Option ReconciledState

-- The new watermark is above the one in the table. As in SQL, a missing watermark advances nothing.
abbrev pub Above : Option ℤ → Option ℤ → Type 0
Above none new = Unit
Above (some old) none = ⊥
Above (some old) (some new) = old <ℤ new

abbrev pub watermark : Option ReconciledState → Option ℤ
watermark none = none
watermark (some state) = state.last_transaction_id

-- A row as Insert stores it: the database gives the id and the time of receipt, and its column types
-- may pad the currency and round the time of the trade.
abbrev pub StoredAs : Transaction → Transaction → Type 0
StoredAs txn stored = stored ≡ record txn {
  id = stored.id;
  currency = stored.currency;
  occurred_at = stored.occurred_at;
  received_at = stored.received_at;
}

-- The saved state is `state`, but for the time of the update, which the database gives.
abbrev pub SavedAs : ReconciledState → Option ReconciledState → Type 0
SavedAs state found = (at : Time) × (found ≡ some (record state { updated_at = at }))

module _ {S : Type 0} (t : Tables S) (txns : TransactionRepository S) where
  -- The ledger is append-only, an event has one row, and reads change nothing.
  pub record IsLedger : Type 0 where
    pub insert_keeps_rows :
        (s : S) (txn : Transaction) (event : Bytes) (r : Transaction)
        → t.row s event ≡ some r
        → t.row (txns.insert s txn).0 event ≡ some r
    pub insert_keeps_saved :
        (s : S) (txn : Transaction) (tenant instrument : Bytes)
        → t.saved (txns.insert s txn).0 tenant instrument ≡ t.saved s tenant instrument
    pub insert_ok :
        (s : S) (txn r : Transaction)
        → (txns.insert s txn).1 ≡ ok r
        → (t.row s txn.event_id ≡ none)
          × (t.row (txns.insert s txn).0 txn.event_id ≡ some r)
          × StoredAs txn r
    pub lookup_keeps_rows :
        (s : S) (event other : Bytes) → t.row (txns.get_by_event_id s event).0 other ≡ t.row s other
    pub lookup_keeps_saved :
        (s : S) (event tenant instrument : Bytes)
        → t.saved (txns.get_by_event_id s event).0 tenant instrument ≡ t.saved s tenant instrument
    pub lookup_ok :
        (s : S) (event : Bytes) (r : Transaction)
        → (txns.get_by_event_id s event).1 ≡ ok r
        → t.row s event ≡ some r

module _ {S : Type 0} (t : Tables S) (states : ReconciledStateRepository S) where
  -- Upsert is one compare-and-swap on the watermark of one key, and Get reads that key.
  pub record IsStateTable : Type 0 where
    pub upsert_keeps_rows :
        (s : S) (state : ReconciledState) (event : Bytes)
        → t.row (states.upsert s state).0 event ≡ t.row s event
    pub upsert_keeps_others :
        (s : S) (state : ReconciledState) (tenant instrument : Bytes)
        → (eq_bytes state.tenant_id tenant && eq_bytes state.instrument instrument) ≡ false
        → t.saved (states.upsert s state).0 tenant instrument ≡ t.saved s tenant instrument
    pub upsert_swaps :
        (s : S) (state : ReconciledState) (tenant instrument : Bytes)
        → state.tenant_id ≡ tenant
        → state.instrument ≡ instrument
        → let before = t.saved s tenant instrument in
          let after = t.saved (states.upsert s state).0 tenant instrument in
          (after ≡ before)
          ⊎ (SavedAs state after × Above (watermark before) state.last_transaction_id)
    pub upsert_ok :
        (s : S) (state : ReconciledState) (tenant instrument : Bytes)
        → state.tenant_id ≡ tenant
        → state.instrument ≡ instrument
        → (states.upsert s state).1 ≡ ok tt
        → SavedAs state (t.saved (states.upsert s state).0 tenant instrument)
    pub upsert_stale :
        (s : S) (state : ReconciledState) (tenant instrument : Bytes)
        → state.tenant_id ≡ tenant
        → state.instrument ≡ instrument
        → (states.upsert s state).1 ≡ err stale_reconciled_state
        → ¬ Above (watermark (t.saved s tenant instrument)) state.last_transaction_id
    pub get_keeps_rows :
        (s : S) (tenant instrument event : Bytes)
        → t.row (states.get s tenant instrument).0 event ≡ t.row s event
    pub get_keeps_saved :
        (s : S) (tenant instrument tenant' instrument' : Bytes)
        → t.saved (states.get s tenant instrument).0 tenant' instrument'
          ≡ t.saved s tenant' instrument'
    pub get_ok :
        (s : S) (tenant instrument : Bytes) (state : ReconciledState)
        → (states.get s tenant instrument).1 ≡ ok state
        → (t.saved s tenant instrument ≡ some state)
          × (state.tenant_id ≡ tenant)
          × (state.instrument ≡ instrument)
    pub get_not_found :
        (s : S) (tenant instrument : Bytes)
        → (states.get s tenant instrument).1 ≡ err not_found
        → t.saved s tenant instrument ≡ none
