-- ===== src/Api/Tests.antt =====
-- Runs of the transaction API's handlers (internal/api).
mod Served
use go_transaction_control_p.Prelude.Word.{wrap64}
use go_transaction_control_p.Ledger.Amount.{
  rescale, parse_uint, is_digits, cut, parse_mantissa, split_exponent, parse_amount,
}
use go_transaction_control_p.Prelude.Int.{neg, ◌-ℤ◌, ◌+ℤ◌, pos}
use go_transaction_control_p.Ledger.Types.{Time}
use go_transaction_control_p.Ingestion.Events.{Event}
use go_transaction_control_p.Api.Requests.{
  amount_or, is_bad_amount, invalid_tenant_id, is_valid_currency_code, is_valid_instrument, every,
  is_valid_tenant_id, to_ingestion_event, lacks_field, validate_request, TransactionEventRequest,
}
use go_transaction_control_p.Api.Handler.{
  accepted, answer, publish_event, handle_request, is_json_whitespace, handle_decoded, handle_body,
  read_body, handle_transaction,
}
use go_transaction_control_p.Api.GrpcAccepted.{ingest_transaction-ProtoOutcome, ProtoOutcome}
use go_transaction_control_p.Api.Accepted.{handle_transaction-Outcome, Outcome}
use go_transaction_control_p.Prelude.{
  eq_bytes, err, ltb, ◌≡◌, ◌+◌, codes, Option, Bool, ℕ, Bytes, true, refl, some, none, ok, [], ◌∷◌,
}
use go_transaction_control_p.Api.Grpc.{ingest_transaction, ProtoEvent, buy}

abbrev keep_uuid : Bytes → Option Bytes
keep_uuid s = some s

abbrev fixed_time : Bytes → Option Time
fixed_time s = some (pos 1700)

abbrev order : TransactionEventRequest
order = record {
  event_id = codes "0b6c";
  tenant_id = codes "acme-1";
  instrument = codes "BRK.B";
  side = codes "BUY";
  quantity = codes "1.5";
  price = codes "100";
  currency = codes "USD";
  occurred_at = codes "2024";
}

order_valid : validate_request keep_uuid fixed_time order ≡ ok tt
unfolding validate_request lacks_field is_valid_tenant_id is_valid_instrument is_valid_currency_code
    every is_bad_amount parse_amount split_exponent parse_mantissa cut is_digits parse_uint ◌+ℤ◌
    ◌-ℤ◌ wrap64 rescale neg eq_bytes
order_valid = refl

bad_tenant :
    validate_request keep_uuid fixed_time (record order { tenant_id = codes "a:b" })
    ≡ err invalid_tenant_id
unfolding validate_request lacks_field is_valid_tenant_id every
bad_tenant = refl

-- A publisher that counts, and fails once it is full.
abbrev count_event : ℕ → Event → ℕ × Bool
count_event n event = (n + 1, ltb n 3)

abbrev decode_order : Bytes → Option (TransactionEventRequest × ℕ)
decode_order [] = none
decode_order (c ∷ s) = some (order, 1)

accepts :
    handle_transaction keep_uuid fixed_time decode_order count_event 0 (some (codes "{ "))
    ≡ (1, accepted)
unfolding handle_transaction read_body handle_body handle_decoded is_json_whitespace handle_request
    publish_event to_ingestion_event amount_or answer validate_request lacks_field
    is_valid_tenant_id is_valid_instrument is_valid_currency_code every is_bad_amount parse_amount
    split_exponent parse_mantissa cut is_digits parse_uint ◌+ℤ◌ ◌-ℤ◌ wrap64 rescale neg eq_bytes
accepts = refl

abbrev proto_order : ProtoEvent
proto_order = record {
  event_id = codes "0b6c";
  tenant_id = codes "acme-1";
  instrument = codes "BRK.B";
  side = buy;
  quantity = pos 150000000;
  price = pos 10000000000;
  currency = codes "USD";
  occurred_at = some (record { is_valid = true; time = pos 1700 });
}

ingest_transaction-ProtoOutcome_example :
    ProtoOutcome keep_uuid count_event
      (some proto_order)
      0
      (ingest_transaction keep_uuid count_event 0 (some proto_order))
ingest_transaction-ProtoOutcome_example =
    ingest_transaction-ProtoOutcome keep_uuid count_event (some proto_order) 0
