-- ===== src/Ledger/Storage/Tests.antt =====
-- Runs of the stores (internal/ledger/storage).
use go_transaction_control_p.Ledger.Storage.Contract.{transaction_store-IsLedger}
use go_transaction_control_p.Prelude.Int.{pos_part, pos}
use go_transaction_control_p.Ledger.Types.{duplicate_event, failed, Transaction, Time}
use go_transaction_control_p.Ledger.Repository.{IsLedger}
use go_transaction_control_p.Ledger.Storage.{
  find_event, violates_check, columns_of, as_columns, map_error, insert_error, is_present,
  append_row, constrained_row, encoded_row, insert_row, later_faults, next_fault, transaction_store,
  run_faulty, stored_tables, execute, store_insert, Database, lost_reply,
}
use go_transaction_control_p.Prelude.{
  ◌≡◌, eq_bytes, ◌*◌, ◌/◌, codes, Option, Bytes, err, some, [], ◌∷◌, refl,
}

abbrev pub keep_currency : Bytes → Option Bytes
keep_currency s = some s

abbrev pub to_microseconds : Time → Option Time
to_microseconds at = some (pos (pos_part at / 1000 * 1000))

abbrev trade : Transaction
trade = record {
  id = pos 0;
  event_id = codes "e";
  tenant_id = codes "acme";
  schema_version = pos 1;
  instrument = codes "BTC";
  side = codes "BUY";
  quantity = pos 100000000;
  price = pos 200000000;
  currency = codes "USD";
  occurred_at = pos 1234567;
  received_at = pos 0;
}

-- The reply of the first statement is lost.
abbrev pub empty_tables : Database
empty_tables = record {
  transactions = [];
  states = [];
  next_id = 1;
  now = pos 9;
  faults = lost_reply ∷ [];
}

-- An insert whose reply is lost has written its row, which the next one finds.
insert_twice :
    let first = store_insert keep_currency to_microseconds empty_tables trade in
    (first.1 ≡ err failed)
    × ((store_insert keep_currency to_microseconds first.0 trade).1 ≡ err duplicate_event)
unfolding store_insert execute run_faulty next_fault later_faults insert_row encoded_row
    constrained_row append_row is_present insert_error map_error as_columns columns_of
    violates_check find_event eq_bytes
insert_twice = (refl, refl)

transaction_store-IsLedger_example :
    IsLedger stored_tables (transaction_store keep_currency to_microseconds)
transaction_store-IsLedger_example = transaction_store-IsLedger keep_currency to_microseconds
