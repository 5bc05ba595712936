-- ===== src/Api/Grpc.antt =====
-- internal/api/grpc_transaction_handler.go: one request over gRPC. A proto message's fields are typed;
-- a timestamp carries what CheckValid and AsTime make of it.
use go_transaction_control_p.Ledger.Amount.{max_amount, is_empty}
use go_transaction_control_p.Api.Handler.{answer, bad_request, Status}
use go_transaction_control_p.Ledger.Types.{side_sell, side_buy, Time}
use go_transaction_control_p.Ingestion.Events.{current_schema_version, Event}
use go_transaction_control_p.Api.Requests.{
  invalid_occurred_at, invalid_currency, is_valid_currency_code, invalid_price, invalid_quantity,
  invalid_instrument, is_valid_instrument, invalid_tenant_id, is_valid_tenant_id, missing_fields,
  is_none, invalid_side, invalid_event_id, RequestError,
}
use go_transaction_control_p.Prelude.Int.{ltb_ℤ, pos, leb_ℤ, ℤ}
use go_transaction_control_p.Prelude.{
  ◌||◌, or_fail, not, none, fail_if, err, ◌>>◌, ◌>>=◌, some, ok, true, ℕ, Result, Option, Bytes,
  Bool,
}

pub data ProtoSide : Type 0 where
  unspecified buy sell : ProtoSide
  unrecognized : ℕ → ProtoSide

pub record ProtoTimestamp : Type 0 where
  pub is_valid : Bool
  pub time : Time

pub record ProtoEvent : Type 0 where
  pub event_id : Bytes
  pub tenant_id : Bytes
  pub instrument : Bytes
  pub side : ProtoSide
  pub quantity : ℤ
  pub price : ℤ
  pub currency : Bytes
  pub occurred_at : Option ProtoTimestamp

-- sideFromProto.
unfoldable pub side_from_proto : ProtoSide → Result RequestError Bytes
side_from_proto buy = ok side_buy
side_from_proto sell = ok side_sell
side_from_proto unspecified = err invalid_side
side_from_proto (unrecognized n) = err invalid_side

unfoldable pub out_of_bounds : ℤ → Bool
out_of_bounds amount = leb_ℤ amount (pos 0) || ltb_ℤ (pos max_amount) amount

-- `CheckValid() != nil`; a missing timestamp was refused before.
unfoldable pub is_invalid_time : Option ProtoTimestamp → Bool
is_invalid_time none = true
is_invalid_time (some at) = not at.is_valid

-- AsTime, of a timestamp that is there.
unfoldable pub as_time : Option ProtoTimestamp → Time
as_time none = pos 0
as_time (some at) = at.time

-- `_, err := sideFromProto(...)`.
unfoldable pub check_side : Result RequestError Bytes → Result RequestError (Unit {0})
check_side (ok _) = ok tt
check_side (err e) = err e

module _ (parse_uuid : Bytes → Option Bytes) where
  unfoldable pub validate_transaction_event : ProtoEvent → Result RequestError (Unit {0})
  unfolding side_from_proto
  validate_transaction_event event = do
    fail_if
        (is_empty event.event_id
          || is_empty event.tenant_id
          || is_empty event.instrument
          || is_empty event.currency
          || is_none event.occurred_at)
        missing_fields
    fail_if (is_none (parse_uuid event.event_id)) invalid_event_id
    fail_if (not (is_valid_tenant_id event.tenant_id)) invalid_tenant_id
    fail_if (not (is_valid_instrument event.instrument)) invalid_instrument
    check_side (side_from_proto event.side)
    fail_if (out_of_bounds event.quantity) invalid_quantity
    fail_if (out_of_bounds event.price) invalid_price
    fail_if (not (is_valid_currency_code event.currency)) invalid_currency
    fail_if (is_invalid_time event.occurred_at) invalid_occurred_at

  unfoldable pub transaction_event_to_ingestion_event : ProtoEvent → Result RequestError Event
  unfolding side_from_proto
  transaction_event_to_ingestion_event event = do
    id ← or_fail (parse_uuid event.event_id) invalid_event_id
    side ← side_from_proto event.side
    ok (record {
      event_id = id;
      tenant_id = event.tenant_id;
      schema_version = current_schema_version;
      instrument = event.instrument;
      side = side;
      quantity = event.quantity;
      price = event.price;
      currency = event.currency;
      occurred_at = as_time event.occurred_at;
    })

module _ {W : Type 0} (parse_uuid : Bytes → Option Bytes) (publish : W → Event → W × Bool) where
  unfoldable pub publish_proto : W → Result RequestError Event → W × Status
  publish_proto w (err e) = (w, bad_request)
  publish_proto w (ok event) = answer (publish w event)

  unfoldable pub ingest_checked : W → ProtoEvent → Result RequestError (Unit {0}) → W × Status
  ingest_checked w event (err e) = (w, bad_request)
  ingest_checked w event (ok _) =
      publish_proto w (transaction_event_to_ingestion_event parse_uuid event)

  -- IngestTransaction, of a request that may lack its event.
  unfoldable pub ingest_transaction : W → Option ProtoEvent → W × Status
  ingest_transaction w none = (w, bad_request)
  ingest_transaction w (some event) =
      ingest_checked w event (validate_transaction_event parse_uuid event)
