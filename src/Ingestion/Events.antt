-- ===== src/Ingestion/Events.antt =====
-- internal/ingestion/ingestion.go: the events that go to Kafka.
use go_transaction_control_p.Ledger.Types.{Time}
use go_transaction_control_p.Prelude.Int.{pos, ℤ}
use go_transaction_control_p.Prelude.{Bytes}

abbrev pub current_schema_version : ℤ
current_schema_version = pos 1

pub record Event : Type 0 where
  pub event_id : Bytes
  pub tenant_id : Bytes
  pub schema_version : ℤ
  pub instrument : Bytes
  pub side : Bytes
  pub quantity : ℤ
  pub price : ℤ
  pub currency : Bytes
  pub occurred_at : Time
