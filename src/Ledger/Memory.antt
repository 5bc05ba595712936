-- ===== src/Ledger/Memory.antt =====
-- Tables held in memory that keep the contract of the repository interfaces of
-- internal/ledger/ledger.go: the contract can be met.
pub mod Laws
use mathlib.Core.Path.{subst₂}
use go_transaction_control_p.Prelude.Int.{ltb_ℤ, ℤ, pos}
use go_transaction_control_p.Prelude.{
  refl, inr, inl, Bool-cases, ◌⊎◌, Option-cases, ◌+◌, ◌&&◌, eq_bytes, false, eq_bytes_refl, true,
  if◌then◌else◌, err, eq_bytes_iff, some, arith, [], Bool, ◌≡◌, ℕ, ok, ap, Result, none, Option,
  Bytes,
}
use go_transaction_control_p.Ledger.Types.{
  stale_reconciled_state, failed, not_found, duplicate_event, RepositoryError, Transaction,
  ReconciledState,
}
use go_transaction_control_p.Ledger.Repository.{
  SavedAs, IsStateTable, Above, watermark, StoredAs, TransactionRepository, Tables,
  ReconciledStateRepository, IsLedger,
}

pub record Memory : Type 0 where
  pub rows : Bytes → Option Transaction
  pub states : Bytes → Bytes → Option ReconciledState
  pub next_id : ℕ

abbrev pub no_rows : Memory
no_rows = record { rows = λ _. none; states = λ _ _. none; next_id = 1 }

abbrev pub memory_tables : Tables Memory
memory_tables = record { row = λ s. s.rows; saved = λ s. s.states }

-- The row that the table stores, with its next id.
abbrev pub stored_row : Memory → Transaction → Transaction
stored_row s txn = record txn { id = pos s.next_id }

unfoldable pub memory_insert : Memory → Transaction → Memory × Result RepositoryError Transaction
memory_insert s txn = elim (s.rows txn.event_id) [
  | some _ ↦ (s, err duplicate_event)
  | none ↦ (
    record s {
      rows = λ event. if eq_bytes txn.event_id event then some (stored_row s txn) else s.rows event;
      next_id = s.next_id + 1;
    },
    ok (stored_row s txn),
  )
]

unfoldable pub memory_lookup : Memory → Bytes → Memory × Result RepositoryError Transaction
memory_lookup s event = elim (s.rows event) [ none ↦ (s, err not_found) | some r ↦ (s, ok r) ]

abbrev pub advances : Option ℤ → Option ℤ → Bool
advances none new = true
advances (some old) none = false
advances (some old) (some new) = ltb_ℤ old new

unfoldable pub memory_upsert : Memory → ReconciledState → Memory × Result RepositoryError (Unit {0})
memory_upsert s state =
    if advances (watermark (s.states state.tenant_id state.instrument)) state.last_transaction_id
    then (
      record s {
        states = λ tenant instrument.
            if eq_bytes state.tenant_id tenant && eq_bytes state.instrument instrument
            then some state
            else s.states tenant instrument;
      },
      ok tt,
    )
    else (s, err stale_reconciled_state)

-- A key that holds no state of its own name counts as missing.
unfoldable pub memory_get : Memory → Bytes → Bytes → Memory × Result RepositoryError ReconciledState
memory_get s tenant instrument = elim (s.states tenant instrument) [
  | none ↦ (s, err not_found)
  | some state ↦
      if eq_bytes state.tenant_id tenant && eq_bytes state.instrument instrument
      then (s, ok state)
      else (s, err failed)
]

abbrev pub memory_transactions : TransactionRepository Memory
memory_transactions = record {
  insert = memory_insert;
  get_by_event_id = memory_lookup;
  list_by_tenant = λ s tenant since. (s, ok []);
}

abbrev pub memory_states : ReconciledStateRepository Memory
memory_states = record { upsert = memory_upsert; get = memory_get }
