-- ===== src/Processor.antt =====
-- internal/processor/processor.go: folding a transaction into reconciled state under
-- weighted-average-cost accounting, and the idempotent reconcile of one delivery.
pub mod Trade
pub mod Closing
pub mod Position
pub mod Effect
pub mod Rows
pub mod Delivery
pub mod Redelivery
pub mod Service
pub mod Instrumented
pub mod Observed
pub mod Success
mod Tests
use go_transaction_control_p.Prelude.{
  Bytes, eq_bytes, Bool, true, false, not, ◌&&◌, ◌||◌, Option, none, some, Result, ok, err, ◌>>=◌,
  if◌then◌else◌,
}
use go_transaction_control_p.Prelude.Int.{ℤ, pos, ◌+ℤ◌, ◌-ℤ◌, neg, ltb_ℤ, leb_ℤ, eqb_ℤ}
use go_transaction_control_p.Prelude.Word.{wrap64}
use go_transaction_control_p.Ledger.Amount.{AmountError, mul_amount, div_amount}
use go_transaction_control_p.Ledger.Types.{
  Transaction, ReconciledState, RepositoryError, side_buy, side_sell, flat_state, duplicate_event,
  not_found, stale_reconciled_state,
}
use go_transaction_control_p.Ledger.Repository.{TransactionRepository, ReconciledStateRepository}

pub data TradeError : Type 0 where
  existing_cost trade_cost new_average realized : AmountError → TradeError
  unknown_side : TradeError

-- `fmt.Errorf("...: %w", err)` around an amount's error.
abbrev pub wrap_error :
    {A : Type 0} → (AmountError → TradeError) → Result AmountError A → Result TradeError A
wrap_error f (ok a) = ok a
wrap_error f (err e) = err (f e)

abbrev xnor : Bool → Bool → Bool
xnor true b = b
xnor false b = not b

abbrev pub same_direction : ℤ → ℤ → Bool
same_direction position q =
    eqb_ℤ position (pos 0) || xnor (ltb_ℤ (pos 0) position) (ltb_ℤ (pos 0) q)

-- The first branch of applyTrade: the trade extends the position.
unfoldable pub extend_position : ReconciledState → ℤ → ℤ → Result TradeError ReconciledState
extend_position state q price = do
  existing ← wrap_error existing_cost (mul_amount state.position state.average_cost)
  added ← wrap_error trade_cost (mul_amount q price)
  let new_position = wrap64 (state.position +ℤ q)
  average ← wrap_error new_average (div_amount (wrap64 (existing +ℤ added)) new_position)
  ok (record state { average_cost = average; position = new_position })

-- `if x < 0 { x = -x }`.
abbrev pub abs64 : ℤ → ℤ
abs64 x = if ltb_ℤ x (pos 0) then wrap64 (neg x) else x

-- `min` of the two magnitudes, as the code computes it.
abbrev pub closing_quantity : ℤ → ℤ → ℤ
closing_quantity position q = if ltb_ℤ (abs64 position) (abs64 q) then abs64 position else abs64 q

abbrev pub pnl_per_unit : ReconciledState → ℤ → ℤ
pnl_per_unit state price =
    if ltb_ℤ (pos 0) state.position
    then wrap64 (price -ℤ state.average_cost)
    else wrap64 (state.average_cost -ℤ price)

-- The average cost behind a trade that closes some of the position.
abbrev pub cost_after_close : ℤ → ℤ → ℤ → ℤ → ℤ
cost_after_close new_position flip price old =
    if eqb_ℤ new_position (pos 0) then pos 0 else if ltb_ℤ (pos 0) flip then price else old

-- The second branch of applyTrade: the trade opposes the position.
unfoldable pub oppose_position : ReconciledState → ℤ → ℤ → Result TradeError ReconciledState
oppose_position state q price = do
  let closing = closing_quantity state.position q
  gain ← wrap_error realized (mul_amount closing (pnl_per_unit state price))
  let flip = wrap64 (abs64 q -ℤ closing)
  let new_position = wrap64 (state.position +ℤ q)
  ok (record state {
    realized_pnl = wrap64 (state.realized_pnl +ℤ gain);
    position = new_position;
    average_cost = cost_after_close new_position flip price state.average_cost;
  })

unfoldable pub apply_trade : ReconciledState → ℤ → ℤ → Result TradeError ReconciledState
apply_trade state q price =
    if same_direction state.position q
    then extend_position state q price
    else oppose_position state q price

unfoldable pub apply_buy : ReconciledState → Transaction → Result TradeError ReconciledState
apply_buy state txn = apply_trade state txn.quantity txn.price

unfoldable pub apply_sell : ReconciledState → Transaction → Result TradeError ReconciledState
apply_sell state txn = apply_trade state (wrap64 (neg txn.quantity)) txn.price

unfoldable pub apply_side : ReconciledState → Transaction → Result TradeError ReconciledState
unfolding apply_buy apply_sell
apply_side state txn =
    if eq_bytes txn.side side_buy
    then apply_buy state txn
    else if eq_bytes txn.side side_sell
    then apply_sell state txn
    else err unknown_side

unfoldable pub apply_transaction : ReconciledState → Transaction → Result TradeError ReconciledState
apply_transaction state txn = do
  folded ← apply_side state txn
  ok (record folded { last_transaction_id = some txn.id })

pub data ReconcileError : Type 0 where
  insert_failed get_duplicate_failed get_state_failed upsert_failed :
      RepositoryError → ReconcileError
  apply_failed : TradeError → ReconcileError

-- `state.LastTransactionID != nil && *state.LastTransactionID >= inserted.ID`.
abbrev pub already_applied : Option ℤ → ℤ → Bool
already_applied none id = false
already_applied (some last) id = leb_ℤ id last

module _ {S : Type 0} (txns : TransactionRepository S) (states : ReconciledStateRepository S) where
  abbrev pub Outcome : Type 0
  Outcome = S × Result ReconcileError (Unit {0})

  -- A lost compare-and-swap is no error.
  unfoldable pub after_upsert : S × Result RepositoryError (Unit {0}) → Outcome
  after_upsert (s, ok _) = (s, ok tt)
  after_upsert (s, err stale_reconciled_state) = (s, ok tt)
  after_upsert (s, err e) = (s, err (upsert_failed e))

  unfoldable pub write_back : S → Result TradeError ReconciledState → Outcome
  write_back s (ok updated) = after_upsert (states.upsert s updated)
  write_back s (err e) = (s, err (apply_failed e))

  unfoldable pub fold_in : S → ReconciledState → Transaction → Outcome
  fold_in s state inserted =
      if already_applied state.last_transaction_id inserted.id
      then (s, ok tt)
      else write_back s (apply_transaction state inserted)

  unfoldable pub after_get : Transaction → S × Result RepositoryError ReconciledState → Outcome
  after_get inserted (s, ok state) = fold_in s state inserted
  after_get inserted (s, err not_found) =
      fold_in s (flat_state inserted.tenant_id inserted.instrument) inserted
  after_get inserted (s, err e) = (s, err (get_state_failed e))

  unfoldable pub with_row : S → Transaction → Outcome
  with_row s inserted = after_get inserted (states.get s inserted.tenant_id inserted.instrument)

  unfoldable pub after_lookup : S × Result RepositoryError Transaction → Outcome
  after_lookup (s, ok found) = with_row s found
  after_lookup (s, err e) = (s, err (get_duplicate_failed e))

  unfoldable pub after_insert : Transaction → S × Result RepositoryError Transaction → Outcome
  after_insert txn (s, ok inserted) = with_row s inserted
  after_insert txn (s, err duplicate_event) = after_lookup (txns.get_by_event_id s txn.event_id)
  after_insert txn (s, err e) = (s, err (insert_failed e))

  -- Reconciler.Reconcile.
  unfoldable pub reconcile : S → Transaction → Outcome
  reconcile s txn = after_insert txn (txns.insert s txn)
