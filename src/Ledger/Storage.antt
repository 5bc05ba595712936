-- ===== src/Ledger/Storage.antt =====
-- internal/ledger/storage/transaction_store.go and reconciled_state_store.go: the two stores over
-- Postgres. The SQL statements of the code are functions on the two tables, with the constraints that
-- internal/ledger/storage/migrations gives them; `char3` and `timestamptz` are what the column types
-- CHAR(3) and TIMESTAMPTZ make of a value, none for a refusal. Every statement may fail on its way to
-- the database or on the way back; `faults` says which.
pub mod Rows
pub mod Inserts
pub mod Upserts
pub mod Contract
pub mod StateContract
pub mod Tests
use go_transaction_control_p.Prelude.Int.{pos, negsuc, ltb_ℤ, leb_ℤ, eqb_ℤ, ℤ}
use go_transaction_control_p.Ledger.Types.{
  stale_reconciled_state, side_sell, side_buy, duplicate_event, failed, not_found, Time,
  Transaction, RepositoryError, ReconciledState,
}
use go_transaction_control_p.Ledger.Repository.{
  TransactionRepository, Tables, ReconciledStateRepository,
}
use go_transaction_control_p.Prelude.{
  ◌||◌, ◌==◌, ◌&&◌, ◌+◌, ◌++◌, not, eq_bytes, ℕ, if◌then◌else◌, codes, Bool, Result, Option, List,
  Bytes, true, false, ok, err, none, some, [], ◌∷◌,
}

pub data Fault : Type 0 where
  no_fault lost_request lost_reply : Fault

-- pgx's errors, as the code tells them apart: no row, an error of the server with its code, another.
pub data SqlError : Type 0 where
  no_rows : SqlError
  pg_error : Bytes → SqlError
  other_error : SqlError

-- The tables in the order of their inserts, the sequence of the ids, the server's clock, and what
-- goes wrong with the statements to come.
pub record Database : Type 0 where
  pub transactions : List Transaction
  pub states : List ReconciledState
  pub next_id : ℕ
  pub now : Time
  pub faults : List Fault

next_fault : List Fault → Fault
next_fault [] = no_fault
next_fault (fault ∷ faults) = fault

-- Drops the first fault.
later_faults : List Fault → List Fault
later_faults [] = []
later_faults (fault ∷ faults) = faults

unfoldable pub run_faulty :
    {A : Type 0}
    → Fault
    → (Database → Database × Result SqlError A)
    → Database
    → Database × Result SqlError A
run_faulty no_fault statement d = statement d
run_faulty lost_request statement d = (d, err other_error)
run_faulty lost_reply statement d = ((statement d).0, err other_error)

-- A statement sent through the pool.
unfoldable pub execute :
    {A : Type 0}
    → (Database → Database × Result SqlError A)
    → Database
    → Database × Result SqlError A
unfolding run_faulty next_fault later_faults
execute statement d =
    run_faulty (next_fault d.faults) statement (record d { faults = later_faults d.faults })

-- WHERE event_id = $1.
unfoldable pub find_event : List Transaction → Bytes → Option Transaction
find_event [] event = none
find_event (r ∷ rows) event =
    let rest = find_event rows event in if eq_bytes r.event_id event then some r else rest

-- WHERE tenant_id = $1 AND instrument = $2.
unfoldable pub find_state : List ReconciledState → Bytes → Bytes → Option ReconciledState
find_state [] tenant instrument = none
find_state (state ∷ states) tenant instrument =
    let rest = find_state states tenant instrument in
    if eq_bytes state.tenant_id tenant && eq_bytes state.instrument instrument
    then some state
    else rest

abbrev pub pg_unique_violation : Bytes
pg_unique_violation = codes "23505"

abbrev pub pg_check_violation : Bytes
pg_check_violation = codes "23514"

abbrev pub pg_foreign_key_violation : Bytes
pg_foreign_key_violation = codes "23503"

-- The table's checks on side, quantity and price.
unfoldable pub violates_check : Transaction → Bool
violates_check r =
    not (eq_bytes r.side side_buy || eq_bytes r.side side_sell)
    || leb_ℤ r.quantity (pos 0)
    || leb_ℤ r.price (pos 0)

unfoldable pub map_error : {E E' A : Type 0} → (E → E') → Result E A → Result E' A
map_error f (ok a) = ok a
map_error f (err e) = err (f e)

module _ (char3 : Bytes → Option Bytes) (timestamptz : Time → Option Time) where
  columns_of : Transaction → Option Bytes → Option Time → Option Transaction
  columns_of txn none at = none
  columns_of txn (some currency) none = none
  columns_of txn (some currency) (some at) =
      if leb_ℤ (negsuc 32767) txn.schema_version && leb_ℤ txn.schema_version (pos 32767)
      then some (record txn { currency = currency; occurred_at = at })
      else none

  -- The values of a row as its columns hold them; SMALLINT takes an int16.
  unfoldable pub as_columns : Transaction → Option Transaction
  unfolding columns_of
  as_columns txn = columns_of txn (char3 txn.currency) (timestamptz txn.occurred_at)

  append_row : Database → Transaction → Bool → Database × Result SqlError Transaction
  append_row d r true = (d, err (pg_error pg_unique_violation))
  append_row d r false = (record d { transactions = d.transactions ++ r ∷ [] }, ok r)

  is_present : Option Transaction → Bool
  is_present none = false
  is_present (some r) = true

  -- The row with the values that the database gives it, against the constraints.
  constrained_row : Database → Transaction → Database × Result SqlError Transaction
  unfolding append_row is_present
  constrained_row d r =
      if violates_check r
      then (d, err (pg_error pg_check_violation))
      else append_row d r (is_present (find_event d.transactions r.event_id))

  encoded_row : Database → Option Transaction → Database × Result SqlError Transaction
  unfolding constrained_row
  encoded_row d none = (d, err other_error)
  encoded_row d (some r) =
      constrained_row (record d { next_id = d.next_id + 1 })
        (record r { id = pos d.next_id; received_at = d.now })

  -- INSERT INTO transactions … RETURNING.
  unfoldable pub insert_row : Transaction → Database → Database × Result SqlError Transaction
  unfolding encoded_row
  insert_row txn d = encoded_row d (as_columns txn)

  -- Insert's translation of an error.
  unfoldable pub insert_error : SqlError → RepositoryError
  insert_error (pg_error code) =
      if eq_bytes code pg_unique_violation then duplicate_event else failed
  insert_error no_rows = failed
  insert_error other_error = failed

  -- TransactionStore.Insert.
  unfoldable pub store_insert :
      Database → Transaction → Database × Result RepositoryError Transaction
  unfolding insert_error
  store_insert d txn =
      let answer = execute (insert_row txn) d in (answer.0, map_error insert_error answer.1)

-- The one row of a query, if there is one.
unfoldable pub one_row : {A : Type 0} → Option A → Result SqlError A
one_row none = err no_rows
one_row (some a) = ok a

-- The translation of an error of GetByEventID and of Get.
unfoldable pub get_error : SqlError → RepositoryError
get_error no_rows = not_found
get_error (pg_error code) = failed
get_error other_error = failed

-- TransactionStore.GetByEventID.
unfoldable pub store_get_by_event_id :
    Database → Bytes → Database × Result RepositoryError Transaction
unfolding one_row get_error
store_get_by_event_id d event =
    let answer = execute (λ x. (x, one_row (find_event x.transactions event))) d in
    (answer.0, map_error get_error answer.1)

-- `last_transaction_id IS NULL OR last_transaction_id < EXCLUDED.last_transaction_id`; a comparison
-- with NULL is not true.
unfoldable pub where_advances : Option ℤ → Option ℤ → Bool
where_advances none new = true
where_advances (some old) none = false
where_advances (some old) (some new) = ltb_ℤ old new

has_id : List Transaction → ℤ → Bool
has_id [] id = false
has_id (r ∷ rows) id = eqb_ℤ r.id id || has_id rows id

-- `last_transaction_id BIGINT REFERENCES transactions (id)`.
unfoldable pub references : List Transaction → Option ℤ → Bool
unfolding has_id
references rows none = true
references rows (some id) = has_id rows id

-- The row of a tenant's instrument, replaced.
unfoldable pub replace_state : List ReconciledState → ReconciledState → List ReconciledState
replace_state [] state = []
replace_state (old ∷ states) state =
    let rest = replace_state states state in
    if eq_bytes old.tenant_id state.tenant_id && eq_bytes old.instrument state.instrument
    then state ∷ states
    else old ∷ rest

-- A write of a state with the key that it refers to checked, and the number of rows that it affects.
write_states : Database → ReconciledState → List ReconciledState → Database × Result SqlError ℕ
write_states d state states =
    if references d.transactions state.last_transaction_id
    then (record d { states = states }, ok 1)
    else (d, err (pg_error pg_foreign_key_violation))

upsert_over : Database → ReconciledState → Option ReconciledState → Database × Result SqlError ℕ
unfolding write_states
upsert_over d state none = write_states d state (d.states ++ state ∷ [])
upsert_over d state (some old) =
    if where_advances old.last_transaction_id state.last_transaction_id
    then write_states d state (replace_state d.states state)
    else (d, ok 0)

-- INSERT INTO reconciled_state … ON CONFLICT … DO UPDATE … WHERE.
unfoldable pub upsert_row : ReconciledState → Database → Database × Result SqlError ℕ
unfolding upsert_over
upsert_row state d =
    upsert_over d (record state { updated_at = d.now })
      (find_state d.states state.tenant_id state.instrument)

unfoldable pub upsert_result : Result SqlError ℕ → Result RepositoryError (Unit {0})
upsert_result (err e) = err failed
upsert_result (ok affected) = if affected == 0 then err stale_reconciled_state else ok tt

-- ReconciledStateStore.Upsert.
unfoldable pub store_upsert :
    Database → ReconciledState → Database × Result RepositoryError (Unit {0})
unfolding upsert_result
store_upsert d state =
    let answer = execute (upsert_row state) d in (answer.0, upsert_result answer.1)

-- ReconciledStateStore.Get.
unfoldable pub store_get :
    Database → Bytes → Bytes → Database × Result RepositoryError ReconciledState
store_get d tenant instrument =
    let answer = execute (λ x. (x, one_row (find_state x.states tenant instrument))) d in
    (answer.0, map_error get_error answer.1)

-- ORDER BY occurred_at, of the rows that WHERE tenant_id = $1 AND occurred_at >= $2 leaves.
unfoldable pub insert_by_time : Transaction → List Transaction → List Transaction
insert_by_time r [] = r ∷ []
insert_by_time r (x ∷ rows) =
    let rest = insert_by_time r rows in
    if ltb_ℤ x.occurred_at r.occurred_at then x ∷ rest else r ∷ x ∷ rows

unfoldable pub select_tenant : Bytes → Time → List Transaction → List Transaction
unfolding insert_by_time
select_tenant tenant since [] = []
select_tenant tenant since (r ∷ rows) =
    let rest = select_tenant tenant since rows in
    if eq_bytes r.tenant_id tenant && leb_ℤ since r.occurred_at then insert_by_time r rest else rest

-- TransactionStore.ListByTenant; a row that cannot be read and a connection that breaks between two
-- rows fail the statement.
unfoldable pub store_list_by_tenant :
    Database → Bytes → Time → Database × Result RepositoryError (List Transaction)
unfolding select_tenant
store_list_by_tenant d tenant since =
    let answer = execute (λ x. (x, ok (select_tenant tenant since x.transactions))) d in
    (answer.0, map_error (λ e. failed) answer.1)

abbrev pub transaction_store :
    (Bytes → Option Bytes) → (Time → Option Time) → TransactionRepository Database
transaction_store char3 timestamptz = record {
  insert = store_insert char3 timestamptz;
  get_by_event_id = store_get_by_event_id;
  list_by_tenant = store_list_by_tenant;
}

abbrev pub state_store : ReconciledStateRepository Database
state_store = record { upsert = store_upsert; get = store_get }

-- What the tables hold.
abbrev pub stored_tables : Tables Database
stored_tables = record {
  row = λ d event. find_event d.transactions event;
  saved = λ d tenant instrument. find_state d.states tenant instrument;
}
