-- ===== src/Ledger/Storage/Contract.antt =====
-- The store of transactions (internal/ledger/storage/transaction_store.go) against the contract of the
-- repository interface.
use mathlib.Core.Path.{subst}
use go_transaction_control_p.Ledger.Storage.Inserts.{insert_row-Appended}
use go_transaction_control_p.Ledger.Repository.{IsLedger, StoredAs}
use go_transaction_control_p.Ledger.Storage.Rows.{find_event-single, find_event-append}
use go_transaction_control_p.Ledger.Storage.{
  transaction_store, stored_tables, store_get_by_event_id, no_fault, lost_reply, lost_request,
  one_row, later_faults, get_error, Fault, next_fault, map_error, insert_error, run_faulty, execute,
  find_event, insert_row, Database, store_insert,
}
use go_transaction_control_p.Ledger.Types.{not_found, failed, RepositoryError, Transaction, Time}
use go_transaction_control_p.Prelude.{
  ◌∙◌, ap, List, ◌++◌, ◌⊎◌, ◌≡◌, Result, Option, Bytes, ok, err, none, some, [], ◌∷◌, inl, inr,
  refl,
}

module _ (char3 : Bytes → Option Bytes) (timestamptz : Time → Option Time) where
  -- What Insert leaves: the tables as they were and an error, or the row of a new event, with the row
  -- or an error as the answer.
  abbrev KeptOrAppended :
      Transaction → Database → Database × Result RepositoryError Transaction → Type 0
  KeptOrAppended txn d r =
      (r.0.states ≡ d.states)
      × (((r.0.transactions ≡ d.transactions) × ((e : RepositoryError) × (r.1 ≡ err e)))
          ⊎ ((row : Transaction) × (find_event d.transactions txn.event_id ≡ none)
              × (r.0.transactions ≡ d.transactions ++ row ∷ [])
              × ((r.1 ≡ ok row) ⊎ ((e : RepositoryError) × (r.1 ≡ err e)))
              × StoredAs txn row))

  insert_faulty :
      (fault : Fault) (later : List Fault) (d : Database) (txn : Transaction)
      → let answer =
          run_faulty fault (insert_row char3 timestamptz txn) (record d { faults = later }) in
        KeptOrAppended txn d (answer.0, map_error (insert_error char3 timestamptz) answer.1)
  unfolding run_faulty insert_error map_error
  insert_faulty lost_request later d txn = (refl, inl (refl, (failed, refl)))
  insert_faulty lost_reply later d txn =
      elim (insert_row-Appended char3 timestamptz txn (record d { faults = later })) [
        | inl (t, s, _) ↦ (s, inl (t, (failed, refl)))
        | inr (row, n, t, s, _, a) ↦ (s, inr (row, n, t, inr (failed, refl), a))
      ]
  insert_faulty no_fault later d txn =
      elim (insert_row-Appended char3 timestamptz txn (record d { faults = later })) [
        | inl (t, s, (e, h)) ↦ (s, inl (t, (insert_error char3 timestamptz e, rw h refl)))
        | inr (row, n, t, s, h, a) ↦ (s, inr (row, n, t, inl (rw h refl), a))
      ]

  store_insert_cases :
      (d : Database) (txn : Transaction)
      → KeptOrAppended txn d (store_insert char3 timestamptz d txn)
  unfolding store_insert execute
  store_insert_cases d txn = insert_faulty (next_fault d.faults) (later_faults d.faults) d txn

  insert_keeps :
      (d : Database) (txn : Transaction) (event : Bytes) (r : Transaction)
      → find_event d.transactions event ≡ some r
      → find_event (store_insert char3 timestamptz d txn).0.transactions event ≡ some r
  insert_keeps d txn event r h =
      let (_, cases) = store_insert_cases d txn in
      elim cases [
        | inl (t, _) ↦ rw t h
        | inr (row, _, t, _, _) ↦
            rw t (rw (find_event-append d.transactions (row ∷ []) event) (rw h refl))
      ]

  insert_stores :
      (d : Database) (txn r : Transaction)
      → (store_insert char3 timestamptz d txn).1 ≡ ok r
      → (find_event d.transactions txn.event_id ≡ none)
        × (find_event (store_insert char3 timestamptz d txn).0.transactions txn.event_id ≡ some r)
        × StoredAs txn r
  insert_stores d txn r h =
      let (_, cases) = store_insert_cases d txn in
      elim cases [
        | inl (_, (e, f)) ↦ absurd (cc (h, f))
        | inr (row, n, t, inr (e, f), _) ↦ absurd (cc (h, f))
        | inr (row, n, t, inl f, a) ↦
            let same : row ≡ r = cc (h, f) in
            let named : row.event_id ≡ txn.event_id = ap (λ x. x.event_id) a in
            let found =
              find_event-append d.transactions (row ∷ []) txn.event_id
              ∙ rw n
                  (subst (λ x. find_event (row ∷ []) x ≡ some row) named (find_event-single row)) in
            (n, rw t (found ∙ ap some same), subst (StoredAs txn) same a)
      ]

-- What a found row or none becomes for the caller.
get_answers :
    {A : Type 0} (found : Option A)
    → ((a : A) → map_error get_error (one_row found) ≡ ok a → found ≡ some a)
      × (map_error get_error (one_row found) ≡ err not_found → found ≡ none)
unfolding map_error get_error one_row
get_answers none = (λ a h. absurd (cc h), λ h. refl)
get_answers (some x) = (λ a h. cc h, λ h. absurd (cc h))

-- What a read leaves: the tables, and an answer that is the row's or an error.
pub get_faulty :
    {A : Type 0} (fault : Fault) (later : List Fault) (d : Database) (query : Database → Option A)
    → let d' = record d { faults = later } in
      let answer = run_faulty fault (λ x. (x, one_row (query x))) d' in
      (answer.0.transactions ≡ d.transactions)
      × (answer.0.states ≡ d.states)
      × ((a : A) → map_error get_error answer.1 ≡ ok a → query d' ≡ some a)
      × (map_error get_error answer.1 ≡ err not_found → query d' ≡ none)
unfolding run_faulty map_error get_error
get_faulty lost_request later d query = (refl, refl, λ a h. absurd (cc h), λ h. absurd (cc h))
get_faulty lost_reply later d query = (refl, refl, λ a h. absurd (cc h), λ h. absurd (cc h))
get_faulty no_fault later d query =
    let (found, missing) = get_answers (query (record d { faults = later })) in
    (refl, refl, found, missing)

read_event :
    (d : Database) (event : Bytes)
    → let r = store_get_by_event_id d event in
      (r.0.transactions ≡ d.transactions)
      × (r.0.states ≡ d.states)
      × ((row : Transaction) → r.1 ≡ ok row → find_event d.transactions event ≡ some row)
      × (r.1 ≡ err not_found → find_event d.transactions event ≡ none)
unfolding store_get_by_event_id execute
read_event d event =
    get_faulty (next_fault d.faults) (later_faults d.faults) d
      (λ x. find_event x.transactions event)

module _ (char3 : Bytes → Option Bytes) (timestamptz : Time → Option Time) where
  -- The store of transactions keeps the contract of an append-only ledger with one row for an event,
  -- whatever fails between it and the database, and whatever its column types make of a currency and
  -- a time.
  pub transaction_store-IsLedger : IsLedger stored_tables (transaction_store char3 timestamptz)
  unfolding store_get_by_event_id execute
  transaction_store-IsLedger = record {
    insert_keeps_rows = λ d txn event r h. insert_keeps char3 timestamptz d txn event r h;
    insert_keeps_saved =
        λ d txn tenant instrument. rw (store_insert_cases char3 timestamptz d txn).0 refl;
    insert_ok = λ d txn r h. insert_stores char3 timestamptz d txn r h;
    lookup_keeps_rows = λ d event other. rw (read_event d event).0 refl;
    lookup_keeps_saved = λ d event tenant instrument. rw (read_event d event).1 refl;
    lookup_ok = λ d event r h. (read_event d event).2 r h;
  }
