-- ===== src/Processor/Position.antt =====
-- The position and the watermark that a folded transaction leaves
-- (internal/processor/processor.go), wrap-around included.
use go_transaction_control_p.Prelude.Word.{wrap64}
use go_transaction_control_p.Prelude.Int.{◌<ℤ◌, ◌+ℤ◌, neg, pos, ℤ}
use go_transaction_control_p.Prelude.{
  inr, inl, eq_bytes_iff, Result-cases, ◌⊎◌, ◌+◌, ◌≤◌, some, arith, ◌^◌, ◌<◌, ok, eq_bytes, ◌≡◌,
  if◌then◌else◌, ℕ,
}
use go_transaction_control_p.Processor.{
  oppose_position, extend_position, apply_side, apply_transaction, apply_trade,
}
use go_transaction_control_p.Ledger.Types.{side_sell, side_buy, Transaction, ReconciledState}

pub apply_trade-position :
    (state state' : ReconciledState) (q p : ℤ)
    → apply_trade state q p ≡ ok state'
    → (state'.position ≡ wrap64 (state.position +ℤ q))
      × (state'.tenant_id ≡ state.tenant_id)
      × (state'.instrument ≡ state.instrument)
      × (state'.last_transaction_id ≡ state.last_transaction_id)
unfolding apply_trade extend_position oppose_position
apply_trade-position state state' q p h = ground arith

-- The signed quantity of a transaction.
abbrev pub signed_quantity : Transaction → ℤ
signed_quantity txn = if eq_bytes txn.side side_buy then txn.quantity else wrap64 (neg txn.quantity)

apply_side-position :
    (state state' : ReconciledState) (txn : Transaction)
    → apply_side state txn ≡ ok state'
    → (state'.position ≡ wrap64 (state.position +ℤ signed_quantity txn))
      × (state'.tenant_id ≡ state.tenant_id)
      × (state'.instrument ≡ state.instrument)
      × ((txn.side ≡ side_buy) ⊎ (txn.side ≡ side_sell))
unfolding apply_side
apply_side-position state state' txn h = ground (
  arith,
  eq_bytes_iff txn.side side_buy,
  eq_bytes_iff txn.side side_sell,
  apply_trade-position state state' txn.quantity txn.price,
  apply_trade-position state state' (wrap64 (neg txn.quantity)) txn.price,
)

-- A folded transaction moves the position by its quantity, up for a buy and down for a sell, in
-- wrapping int64 arithmetic; it keeps tenant and instrument, sets the watermark to the
-- transaction's id, and its side is one of the two known ones.
pub apply_transaction-position :
    (state state' : ReconciledState) (txn : Transaction)
    → apply_transaction state txn ≡ ok state'
    → (state'.position ≡ wrap64 (state.position +ℤ signed_quantity txn))
      × (state'.tenant_id ≡ state.tenant_id)
      × (state'.instrument ≡ state.instrument)
      × (state'.last_transaction_id ≡ some txn.id)
      × ((txn.side ≡ side_buy) ⊎ (txn.side ≡ side_sell))
unfolding apply_transaction
apply_transaction-position state state' txn h = elim (Result-cases (apply_side state txn)) [
  | inl (folded, e) ↦ ground (arith, apply_side-position state folded txn e)
  | inr (e, refused) ↦ ground arith
]

wraps_negative :
    (m k : ℕ) → m < 2 ^ 63 → k < 2 ^ 63 → 2 ^ 63 ≤ m + k → wrap64 (pos m +ℤ pos k) <ℤ pos 0
unfolding wrap64 ◌+ℤ◌
wraps_negative m k hm hk big = ground arith

-- A buy of k units on a long position of m units, where m + k reaches 2^63, is not refused as an
-- overflow of the position: wherever it is folded in, the position that it leaves is negative.
pub apply_trade-overflow_flips :
    (state state' : ReconciledState) (m k : ℕ) (p : ℤ)
    → state.position ≡ pos m
    → m < 2 ^ 63
    → k < 2 ^ 63
    → 2 ^ 63 ≤ m + k
    → apply_trade state (pos k) p ≡ ok state'
    → state'.position <ℤ pos 0
apply_trade-overflow_flips state state' m k p ep hm hk big h =
    rw ((apply_trade-position state state' (pos k) p h).0) (rw ep (wraps_negative m k hm hk big))
