-- ===== src/Ingestion/Publisher.antt =====
-- internal/ingestion/kafka/publisher.go: an event as a Kafka record, and its publishing. `marshal` is
-- json.Marshal, `uuid_text` is UUID.String, `format_time` is Time.Format at RFC 3339 with
-- nanoseconds, and `produce` is ProduceSync over a world of its own, true for an acknowledgement.
pub mod Config
pub mod Key
use go_transaction_control_p.Ledger.Amount.{format_amount}
use go_transaction_control_p.Ingestion.Events.{Event}
use go_transaction_control_p.Prelude.Int.{ℤ}
use go_transaction_control_p.Ledger.Types.{Time}
use go_transaction_control_p.Prelude.{none, some, false, Bool, ◌∷◌, Option, ◌++◌, Bytes}

pub record WireEvent : Type 0 where
  pub event_id : Bytes
  pub tenant_id : Bytes
  pub schema_version : ℤ
  pub instrument : Bytes
  pub side : Bytes
  pub quantity : Bytes
  pub price : Bytes
  pub currency : Bytes
  pub occurred_at : Bytes

-- The fields of a kgo.Record that the code sets.
pub record ProducedRecord : Type 0 where
  pub topic : Bytes
  pub key : Bytes
  pub value : Bytes

unfoldable pub partition_key : Bytes → Bytes → Bytes
partition_key tenant instrument = tenant ++ (b':' ∷ instrument)

unfoldable pub to_wire : (Bytes → Bytes) → (Time → Bytes) → Event → WireEvent
to_wire uuid_text format_time event = record {
  event_id = uuid_text event.event_id;
  tenant_id = event.tenant_id;
  schema_version = event.schema_version;
  instrument = event.instrument;
  side = event.side;
  quantity = format_amount event.quantity;
  price = format_amount event.price;
  currency = event.currency;
  occurred_at = format_time event.occurred_at;
}

module _ {W : Type 0} (uuid_text : Bytes → Bytes) (format_time : Time → Bytes)
    (marshal : WireEvent → Option Bytes) (produce : W → ProducedRecord → W × Bool)
    (topic : Bytes) where
  unfoldable pub produce_payload : W → Event → Option Bytes → W × Bool
  produce_payload w event none = (w, false)
  produce_payload w event (some payload) = produce w (record {
    topic = topic;
    key = partition_key event.tenant_id event.instrument;
    value = payload;
  })

  -- Publisher.Publish; true for no error.
  unfoldable pub publish : W → Event → W × Bool
  unfolding produce_payload
  publish w event = produce_payload w event (marshal (to_wire uuid_text format_time event))
