-- ===== src/Api/Requests.antt =====
-- internal/api/transaction_handler.go: the fields of a request, their validation, and the event that
-- they become. `parse_uuid` is uuid.Parse and `parse_time` is time.Parse at RFC 3339.
use go_transaction_control_p.Prelude.Int.{ltb_ℤ, pos, leb_ℤ, ℤ}
use go_transaction_control_p.Ingestion.Events.{current_schema_version, Event}
use go_transaction_control_p.Ledger.Types.{side_sell, side_buy, Time}
use go_transaction_control_p.Ledger.Amount.{parse_amount, max_amount, is_empty, AmountError}
use go_transaction_control_p.Prelude.{
  eq_bytes, not, or_fail, fail_if, ◌>>◌, ◌>>=◌, none, ok, ltb, false, err, [], ◌∷◌, ◌==◌, ◌&&◌,
  some, length, ◌||◌, true, leb, if◌then◌else◌, ℕ, Result, Option, Bytes, Bool,
}

pub record TransactionEventRequest : Type 0 where
  pub event_id : Bytes
  pub tenant_id : Bytes
  pub instrument : Bytes
  pub side : Bytes
  pub quantity : Bytes
  pub price : Bytes
  pub currency : Bytes
  pub occurred_at : Bytes

pub data RequestError : Type 0 where
  missing_fields invalid_event_id invalid_tenant_id invalid_instrument invalid_side : RequestError
  invalid_quantity invalid_price invalid_currency invalid_occurred_at : RequestError

abbrev pub is_lower_alphanumeric : ℕ → Bool
is_lower_alphanumeric c = (leb b'a' c && leb c b'z') || (leb b'0' c && leb c b'9')

abbrev pub is_upper_alphanumeric : ℕ → Bool
is_upper_alphanumeric c = (leb b'A' c && leb c b'Z') || (leb b'0' c && leb c b'9')

-- A loop that returns false at the first character that fails. The loops are over runes; a byte of
-- a longer rune fails every test below, as its rune does.
unfoldable pub every : (ℕ → Bool) → Bytes → Bool
every test [] = true
every test (c ∷ s) = test c && every test s

abbrev pub tenant_char : ℕ → Bool
tenant_char c = is_lower_alphanumeric c || (c == b'-')

abbrev pub instrument_char : ℕ → Bool
instrument_char c = is_upper_alphanumeric c || (c == b'.')

abbrev pub currency_char : ℕ → Bool
currency_char c = leb b'A' c && leb c b'Z'

unfoldable pub is_valid_tenant_id : Bytes → Bool
is_valid_tenant_id tenant =
    if (length tenant == 0) || ltb 64 (length tenant) then false else every tenant_char tenant

unfoldable pub is_valid_instrument : Bytes → Bool
is_valid_instrument instrument =
    if (length instrument == 0) || ltb 16 (length instrument)
    then false
    else every instrument_char instrument

unfoldable pub is_valid_currency_code : Bytes → Bool
is_valid_currency_code code = if length code == 3 then every currency_char code else false

-- `err != nil || amount <= 0 || amount > MaxAmount`.
unfoldable pub is_bad_amount : Result AmountError ℤ → Bool
is_bad_amount (err e) = true
is_bad_amount (ok amount) = leb_ℤ amount (pos 0) || ltb_ℤ (pos max_amount) amount

abbrev pub is_none : {A : Type 0} → Option A → Bool
is_none none = true
is_none (some a) = false

unfoldable pub lacks_field : TransactionEventRequest → Bool
lacks_field event =
    is_empty event.event_id
    || is_empty event.tenant_id
    || is_empty event.instrument
    || is_empty event.side
    || is_empty event.quantity
    || is_empty event.price
    || is_empty event.currency
    || is_empty event.occurred_at

unfoldable pub amount_or : RequestError → Result AmountError ℤ → Result RequestError ℤ
amount_or e (ok amount) = ok amount
amount_or e (err _) = err e

module _ (parse_uuid : Bytes → Option Bytes) (parse_time : Bytes → Option Time) where
  unfoldable pub validate_request : TransactionEventRequest → Result RequestError (Unit {0})
  validate_request event = do
    fail_if (lacks_field event) missing_fields
    fail_if (is_none (parse_uuid event.event_id)) invalid_event_id
    fail_if (not (is_valid_tenant_id event.tenant_id)) invalid_tenant_id
    fail_if (not (is_valid_instrument event.instrument)) invalid_instrument
    fail_if (not (eq_bytes event.side side_buy) && not (eq_bytes event.side side_sell)) invalid_side
    fail_if (is_bad_amount (parse_amount event.quantity)) invalid_quantity
    fail_if (is_bad_amount (parse_amount event.price)) invalid_price
    fail_if (not (is_valid_currency_code event.currency)) invalid_currency
    fail_if (is_none (parse_time event.occurred_at)) invalid_occurred_at

  -- toIngestionEvent.
  unfoldable pub to_ingestion_event : TransactionEventRequest → Result RequestError Event
  to_ingestion_event event = do
    id ← or_fail (parse_uuid event.event_id) invalid_event_id
    quantity ← amount_or invalid_quantity (parse_amount event.quantity)
    price ← amount_or invalid_price (parse_amount event.price)
    at ← or_fail (parse_time event.occurred_at) invalid_occurred_at
    ok (record {
      event_id = id;
      tenant_id = event.tenant_id;
      schema_version = current_schema_version;
      instrument = event.instrument;
      side = event.side;
      quantity = quantity;
      price = price;
      currency = event.currency;
      occurred_at = at;
    })
