-- ===== src/Consumer/Records.antt =====
-- internal/processor/kafka/consumer.go: Kafka records, the transactions that they carry, and the
-- records of the dead-letter topic. `unmarshal` is json.Unmarshal, `parse_uuid` is uuid.Parse and
-- `parse_time` is time.Parse at RFC 3339 with nanoseconds.
use go_transaction_control_p.Ledger.Types.{Transaction, Time}
use go_transaction_control_p.Ingestion.Publisher.{WireEvent}
use go_transaction_control_p.Prelude.Int.{pos, ℤ}
use go_transaction_control_p.Ledger.Amount.{parse_amount, AmountError}
use go_transaction_control_p.Prelude.{or_fail, ◌>>=◌, err, ok, Option, Result, Bytes}

pub record ConsumedRecord : Type 0 where
  pub topic : Bytes
  pub partition : ℤ
  pub offset : ℤ
  pub key : Bytes
  pub value : Bytes

pub data DecodeError : Type 0 where
  bad_payload bad_event_id bad_quantity bad_price bad_occurred_at : DecodeError

unfoldable pub wire_amount : DecodeError → Result AmountError ℤ → Result DecodeError ℤ
wire_amount e (ok amount) = ok amount
wire_amount e (err _) = err e

-- The fields that the literal leaves out are 0.
unfoldable pub decode_transaction :
    (Bytes → Option WireEvent)
    → (Bytes → Option Bytes)
    → (Bytes → Option Time)
    → Bytes
    → Result DecodeError Transaction
unfolding wire_amount
decode_transaction unmarshal parse_uuid parse_time payload = do
  wire ← or_fail (unmarshal payload) bad_payload
  event_id ← or_fail (parse_uuid wire.event_id) bad_event_id
  quantity ← wire_amount bad_quantity (parse_amount wire.quantity)
  price ← wire_amount bad_price (parse_amount wire.price)
  at ← or_fail (parse_time wire.occurred_at) bad_occurred_at
  ok (record {
    id = pos 0;
    event_id = event_id;
    tenant_id = wire.tenant_id;
    schema_version = wire.schema_version;
    instrument = wire.instrument;
    side = wire.side;
    quantity = quantity;
    price = price;
    currency = wire.currency;
    occurred_at = at;
    received_at = pos 0;
  })

pub record DlqEvent : Type 0 where
  pub original_topic : Bytes
  pub original_partition : ℤ
  pub original_offset : ℤ
  pub payload : Bytes
  pub failure_reason : Bytes
  pub attempts : ℤ
  pub failed_at : Bytes

unfoldable pub dlq_event : ConsumedRecord → Bytes → ℤ → Bytes → DlqEvent
dlq_event r reason attempts failed_at = record {
  original_topic = r.topic;
  original_partition = r.partition;
  original_offset = r.offset;
  payload = r.value;
  failure_reason = reason;
  attempts = attempts;
  failed_at = failed_at;
}
