-- ===== src/Processor/Tests.antt =====
-- Runs of the reconciler (internal/processor/processor.go) on tables held in memory.
mod Service
use go_transaction_control_p.Ledger.Amount.{div_amount, mul_amount}
use Prim.Native.Nat.{min}
use go_transaction_control_p.Processor.Trade.{apply_trade-extends}
use go_transaction_control_p.Ledger.Amount.Exact.{IsQuotient}
use go_transaction_control_p.Processor.Success.{reconcile_acknowledged}
use go_transaction_control_p.Processor.Closing.{apply_trade-closes, gain_per_unit, cost_behind}
use go_transaction_control_p.Processor.Position.{
  apply_trade-overflow_flips, apply_transaction-position, signed_quantity,
}
use go_transaction_control_p.Ledger.Memory.Laws.{memory-IsStateTable, memory-IsLedger}
use go_transaction_control_p.Processor.Redelivery.{
  redelivery_at_most_once, deliveries-Covered, deliveries,
}
use go_transaction_control_p.Prelude.Signs.{is_negative, signed}
use go_transaction_control_p.Prelude.Word.{wrap64}
use go_transaction_control_p.Processor.Effect.{SameSaved}
use go_transaction_control_p.Processor.Delivery.{Covered, Delivered}
use go_transaction_control_p.Processor.{
  extend_position, after_upsert, write_back, fold_in, after_get, with_row, apply_buy, apply_trade,
  apply_side, after_insert, reconcile, apply_transaction,
}
use go_transaction_control_p.Prelude.Int.{◌<ℤ◌, negsuc, ◌*ℤ◌, quo, magnitude, ◌+ℤ◌, pos, ◌-ℤ◌, ℤ}
use go_transaction_control_p.Prelude.{
  ◌^◌, ◌<◌, arith, ◌+◌, ◌⊎◌, ◌≤◌, refl, false, ◌*◌, true, eq_bytes, ok, codes, some, ◌≡◌, ℕ,
}
use go_transaction_control_p.Ledger.Types.{
  side_sell, side_buy, flat_state, Transaction, ReconciledState,
}
use go_transaction_control_p.Ledger.Memory.{
  memory_upsert, memory_get, memory_insert, no_rows, memory_states, memory_transactions,
  memory_tables, Memory,
}

abbrev buy : Transaction
buy = record {
  id = pos 0;
  event_id = codes "e";
  tenant_id = codes "t";
  schema_version = pos 1;
  instrument = codes "i";
  side = side_buy;
  quantity = pos 300000000;
  price = pos 200000000;
  currency = codes "USD";
  occurred_at = pos 0;
  received_at = pos 0;
}

-- Tables where the event is stored as row 1, behind a watermark of 5.
abbrev stored_buy : Transaction
stored_buy = record buy { id = pos 1 }

abbrev later_state : ReconciledState
later_state = record (flat_state (codes "t") (codes "i")) { last_transaction_id = some (pos 5) }

abbrev overtaken : Memory
overtaken = record { rows = λ _. some stored_buy; states = λ _ _. some later_state; next_id = 6 }

redelivery_at_most_once_example :
    Delivered memory_tables memory_transactions memory_states memory-IsLedger memory-IsStateTable
      no_rows
      (deliveries memory_tables memory_transactions memory_states memory-IsLedger
        memory-IsStateTable 3 no_rows buy)
      buy
redelivery_at_most_once_example =
    redelivery_at_most_once memory_tables memory_transactions memory_states memory-IsLedger
      memory-IsStateTable 3 no_rows buy

deliveries-Covered_example : SameSaved memory_tables overtaken (
    deliveries memory_tables memory_transactions memory_states memory-IsLedger memory-IsStateTable 3
      overtaken buy)
deliveries-Covered_example =
    deliveries-Covered memory_tables memory_transactions memory_states memory-IsLedger
      memory-IsStateTable 3 overtaken buy stored_buy refl (λ h. omega arith)

abbrev after_buy : Memory
after_buy = (reconcile memory_transactions memory_states no_rows buy).0

buy_ok : (reconcile memory_transactions memory_states no_rows buy).1 ≡ ok tt
unfolding reconcile after_insert with_row after_get fold_in write_back after_upsert
    apply_transaction memory_insert memory_get memory_upsert eq_bytes apply_side apply_buy
    apply_trade wrap64 ◌+ℤ◌ ◌-ℤ◌ extend_position mul_amount quo ◌*ℤ◌ div_amount
buy_ok = refl

reconcile_acknowledged_example :
    (r : Transaction) × (memory_tables.row after_buy (codes "e") ≡ some r)
    × Covered memory_tables memory_transactions memory_states memory-IsLedger memory-IsStateTable
        after_buy r
    × SameSaved memory_tables after_buy (
        deliveries memory_tables memory_transactions memory_states memory-IsLedger
          memory-IsStateTable 2 after_buy buy)
reconcile_acknowledged_example =
    reconcile_acknowledged memory_tables memory_transactions memory_states memory-IsLedger
      memory-IsStateTable no_rows buy 2 buy_ok

-- Three units at an average cost of 2.
abbrev long_state : ReconciledState
long_state = record (flat_state (codes "t") (codes "i")) {
  position = pos 300000000;
  average_cost = pos 200000000;
}

apply_trade-extends_example :
    (average : ℕ) × (apply_trade long_state (pos 100000000) (pos 600000000)
      ≡ ok (record long_state { average_cost = pos average; position = pos 400000000 }))
    × (average * 400000000 ≤ 300000000 * 200000000 + 100000000 * 600000000)
    × (300000000 * 200000000 + 100000000 * 600000000 < (average + 1) * 400000000 + 2 * 100000000)
    × (average ≤ 600000000)
apply_trade-extends_example =
    apply_trade-extends long_state false 300000000 200000000 100000000 600000000 600000000 refl refl
      (omega arith) (omega arith) (omega arith) (omega arith) (omega arith) (omega arith)

small_gain :
    min 300000000 500000000 * magnitude (gain_per_unit false 200000000 600000000)
    < 2 ^ 63 * 100000000
unfolding ◌-ℤ◌
small_gain = omega arith

apply_trade-closes_example :
    (g : ℤ) × (apply_trade long_state (signed true 500000000) (pos 600000000)
      ≡ ok (record long_state {
        realized_pnl = wrap64 (pos 0 +ℤ g);
        position = signed false 300000000 +ℤ signed true 500000000;
        average_cost = cost_behind 300000000 500000000 200000000 600000000;
      }))
    × IsQuotient
        (is_negative (gain_per_unit false 200000000 600000000))
        (min 300000000 500000000 * magnitude (gain_per_unit false 200000000 600000000))
        100000000
        g
apply_trade-closes_example =
    apply_trade-closes long_state false 300000000 500000000 200000000 600000000 refl refl
      (omega arith) (omega arith) (omega arith) (omega arith) (omega arith) (omega arith) small_gain

abbrev bought_state : ReconciledState
bought_state = record (flat_state (codes "t") (codes "i")) {
  position = pos 300000000;
  average_cost = pos 200000000;
  last_transaction_id = some (pos 0);
}

bought : apply_transaction (flat_state (codes "t") (codes "i")) buy ≡ ok bought_state
unfolding apply_transaction apply_side apply_buy apply_trade wrap64 ◌+ℤ◌ ◌-ℤ◌ eq_bytes
    extend_position mul_amount quo ◌*ℤ◌ div_amount
bought = refl

abbrev full_state : ReconciledState
full_state = record (flat_state (codes "t") (codes "i")) { position = pos 9223372036854775807 }

abbrev flipped_state : ReconciledState
flipped_state = record full_state { position = negsuc 9223372036854775807 }

flips : apply_trade full_state (pos 1) (pos 0) ≡ ok flipped_state
unfolding apply_trade wrap64 ◌+ℤ◌ ◌-ℤ◌ extend_position mul_amount quo ◌*ℤ◌ div_amount
flips = refl
