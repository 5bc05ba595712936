-- ===== src/Ledger/Types.antt =====
-- internal/ledger/ledger.go: the types of the ledger domain and its sentinel errors. A `string` and
-- a `uuid.UUID` are bytes; an int64 is the integer that it stands for; a `time.Time` is a number of
-- nanoseconds behind Go's zero time.
use go_transaction_control_p.Prelude.{Bytes, codes, Option, none}
use go_transaction_control_p.Prelude.Int.{ℤ, pos}

abbrev pub Time : Type 0
Time = ℤ

abbrev pub side_buy : Bytes
side_buy = codes "BUY"

abbrev pub side_sell : Bytes
side_sell = codes "SELL"

pub record Transaction : Type 0 where
  pub id : ℤ
  pub event_id : Bytes
  pub tenant_id : Bytes
  pub schema_version : ℤ
  pub instrument : Bytes
  pub side : Bytes
  pub quantity : ℤ
  pub price : ℤ
  pub currency : Bytes
  pub occurred_at : Time
  pub received_at : Time

pub record ReconciledState : Type 0 where
  pub tenant_id : Bytes
  pub instrument : Bytes
  pub position : ℤ
  pub average_cost : ℤ
  pub realized_pnl : ℤ
  pub last_transaction_id : Option ℤ
  pub updated_at : Time

-- `ReconciledState{TenantID: tenant, Instrument: instrument}`.
abbrev pub flat_state : Bytes → Bytes → ReconciledState
flat_state tenant instrument = record {
  tenant_id = tenant;
  instrument = instrument;
  position = pos 0;
  average_cost = pos 0;
  realized_pnl = pos 0;
  last_transaction_id = none;
  updated_at = pos 0;
}

-- What `errors.Is` tells apart: the sentinel errors, and any other error.
pub data RepositoryError : Type 0 where
  not_found duplicate_event stale_reconciled_state circuit_open failed : RepositoryError
