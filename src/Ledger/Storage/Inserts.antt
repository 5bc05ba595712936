-- ===== src/Ledger/Storage/Inserts.antt =====
-- The statements on the transactions table (internal/ledger/storage/transaction_store.go).
use mathlib.Core.Path.{subst}
use go_transaction_control_p.Prelude.Int.{negsuc, leb_ℤ, pos}
use go_transaction_control_p.Ledger.Repository.{StoredAs}
use go_transaction_control_p.Ledger.Types.{Time, Transaction}
use go_transaction_control_p.Ledger.Storage.{
  pg_check_violation, violates_check, pg_unique_violation, pg_error, other_error, is_present,
  constrained_row, insert_row, find_event, encoded_row, columns_of, as_columns, append_row,
  SqlError, Database,
}
use go_transaction_control_p.Prelude.{
  if_false, if_true, some_inj, ◌&&◌, Bool-cases, ◌+◌, ap, ◌⊎◌, ◌++◌, ◌≡◌, Result, Option, Bytes, ok,
  err, none, some, [], ◌∷◌, inl, inr, refl,
}

-- Nothing is written, and the statement fails.
abbrev pub Rejected : {A : Type 0} → Database → Database × Result SqlError A → Type 0
Rejected {A} d r =
    (r.0.transactions ≡ d.transactions) × (r.0.states ≡ d.states) × ((e : SqlError) × (r.1 ≡ err e))

-- The row of a new event is written and returned.
abbrev pub Appended : Transaction → Database → Database × Result SqlError Transaction → Type 0
Appended txn d r =
    (row : Transaction) × (find_event d.transactions txn.event_id ≡ none)
    × (r.0.transactions ≡ d.transactions ++ row ∷ [])
    × (r.0.states ≡ d.states)
    × (r.1 ≡ ok row)
    × StoredAs txn row

module _ (char3 : Bytes → Option Bytes) (timestamptz : Time → Option Time) where
  append_row-Appended :
      (txn : Transaction) (d before : Database) (row : Transaction)
      → before.transactions ≡ d.transactions
      → before.states ≡ d.states
      → StoredAs txn row
      → (found : Option Transaction) → find_event before.transactions row.event_id ≡ found
      → let r = append_row char3 timestamptz before row (is_present char3 timestamptz found) in
        Rejected d r ⊎ Appended txn d r
  unfolding append_row is_present
  append_row-Appended txn d before row t s a (some old) f =
      inl (t, s, (pg_error pg_unique_violation, refl))
  append_row-Appended txn d before row t s a none f = inr (
    row,
    subst (λ rows. find_event rows txn.event_id ≡ none) t
        (subst (λ event. find_event before.transactions event ≡ none) (ap (λ x. x.event_id) a) f),
    ap (λ rows. rows ++ row ∷ []) t,
    s,
    refl,
    a,
  )

  columns_kept :
      (txn columns : Transaction) (currency : Option Bytes) (at : Option Time)
      → columns_of char3 timestamptz txn currency at ≡ some columns
      → columns ≡ record txn { currency = columns.currency; occurred_at = columns.occurred_at }
  unfolding columns_of
  columns_kept txn columns none at h = absurd cc
  columns_kept txn columns (some currency) none h = absurd cc
  columns_kept txn columns (some currency) (some at) h =
      elim (Bool-cases
        (leb_ℤ (negsuc 32767) txn.schema_version && leb_ℤ txn.schema_version (pos 32767))) [
          | inl e ↦
              subst (λ c. c ≡ record txn { currency = c.currency; occurred_at = c.occurred_at })
                (some_inj (if_true _ _ _ _ e h)) refl
          | inr e ↦ absurd (cc (if_false _ _ _ _ e h))
        ]

  stored_as :
      (txn columns : Transaction) (d : Database)
      → as_columns char3 timestamptz txn ≡ some columns
      → StoredAs txn (record columns { id = pos d.next_id; received_at = d.now })
  unfolding as_columns
  stored_as txn columns d h =
      ap {A = Transaction} (λ x. record x { id = pos d.next_id; received_at = d.now })
        (columns_kept txn columns (char3 txn.currency) (timestamptz txn.occurred_at) h)

  encoded_row-Appended :
      (txn : Transaction) (d : Database) (encoded : Option Transaction)
      → as_columns char3 timestamptz txn ≡ encoded
      → let r = encoded_row char3 timestamptz d encoded in Rejected d r ⊎ Appended txn d r
  unfolding encoded_row constrained_row
  encoded_row-Appended txn d none h = inl (refl, refl, (other_error, refl))
  encoded_row-Appended txn d (some columns) h =
      let row = record columns { id = pos d.next_id; received_at = d.now } in
      let before = record d { next_id = d.next_id + 1 } in
      elim (Bool-cases (violates_check row)) [
        | inl e ↦ rw e (inl (refl, refl, (pg_error pg_check_violation, refl)))
        | inr e ↦ rw e (
            append_row-Appended txn d before row refl refl (stored_as txn columns d h)
              (find_event d.transactions row.event_id) refl)
      ]

  pub insert_row-Appended :
      (txn : Transaction) (d : Database)
      → let r = insert_row char3 timestamptz txn d in Rejected d r ⊎ Appended txn d r
  unfolding insert_row
  insert_row-Appended txn d = encoded_row-Appended txn d (as_columns char3 timestamptz txn) refl
