-- ===== src/Processor/Closing.antt =====
-- What applyTrade (internal/processor/processor.go) does with a trade against the position: what it
-- realizes, and the average cost behind it.
use go_transaction_control_p.Processor.Trade.{apply_trade_opposed}
use go_transaction_control_p.Ledger.Amount.Exact.{mul_amount-exact, mul_amount-total, IsQuotient}
use go_transaction_control_p.Ledger.Amount.{amount_scale, mul_amount}
use go_transaction_control_p.Prelude.Signs.{is_negative, signed}
use go_transaction_control_p.Processor.{
  apply_trade, oppose_position, cost_after_close, pnl_per_unit, closing_quantity, abs64,
  same_direction,
}
use go_transaction_control_p.Ledger.Types.{ReconciledState}
use go_transaction_control_p.Prelude.Int.{magnitude, ◌+ℤ◌, pos, ℤ, ◌-ℤ◌, neg}
use go_transaction_control_p.Prelude.Word.{wrap64}
use go_transaction_control_p.Prelude.{
  ◌∙◌, ◌*◌, ok, ltb, ◌==◌, if◌then◌else◌, true, false, not, arith, ◌≡◌, ◌^◌, ◌<◌, ℕ, Bool,
}
use Prim.Native.Nat.{min}

abs64-signed : (s : Bool) (n : ℕ) → n < 2 ^ 63 → abs64 (signed s n) ≡ pos n
unfolding wrap64 neg
abs64-signed false n h = ground arith
abs64-signed true n h = ground arith

closing_quantity-signed :
    (s : Bool) (m k : ℕ)
    → m < 2 ^ 63
    → k < 2 ^ 63
    → closing_quantity (signed s m) (signed (not s) k) ≡ pos (min m k)
closing_quantity-signed s m k hm hk =
    rw (abs64-signed s m hm) (rw (abs64-signed (not s) k hk) (ground arith))

opposed-signed :
    (s : Bool) (m k : ℕ) → 0 < m → 0 < k → same_direction (signed s m) (signed (not s) k) ≡ false
opposed-signed false m k hm hk = ground arith
opposed-signed true m k hm hk = ground arith

-- What a unit of the position gains when it is closed at price `p`.
abbrev pub gain_per_unit : Bool → ℕ → ℕ → ℤ
gain_per_unit false a p = pos p -ℤ pos a
gain_per_unit true a p = pos a -ℤ pos p

pnl_per_unit-signed :
    (state : ReconciledState) (s : Bool) (m a p : ℕ)
    → state.position ≡ signed s m
    → state.average_cost ≡ pos a
    → 0 < m
    → a < 2 ^ 63
    → p < 2 ^ 63
    → pnl_per_unit state (pos p) ≡ gain_per_unit s a p
unfolding wrap64 ◌-ℤ◌
pnl_per_unit-signed state false m a p ep ea hm ha hp = ground arith
pnl_per_unit-signed state true m a p ep ea hm ha hp = ground arith

closed_position :
    (s : Bool) (m k : ℕ)
    → m < 2 ^ 63
    → k < 2 ^ 63
    → wrap64 (signed s m +ℤ signed (not s) k) ≡ signed s m +ℤ signed (not s) k
unfolding wrap64 ◌+ℤ◌
closed_position false m k hm hk = ground arith
closed_position true m k hm hk = ground arith

-- The average cost behind a trade against a position of `m` units at `a`: none when it is flat, the
-- trade's price when it has changed sides, and else the old one.
abbrev pub cost_behind : ℕ → ℕ → ℕ → ℕ → ℤ
cost_behind m k a p = if m == k then pos 0 else if ltb m k then pos p else pos a

cost_after_close-signed :
    (s : Bool) (m k a p : ℕ)
    → m < 2 ^ 63
    → k < 2 ^ 63
    → cost_after_close
        (signed s m +ℤ signed (not s) k)
        (wrap64 (pos k -ℤ pos (min m k)))
        (pos p)
        (pos a)
      ≡ cost_behind m k a p
unfolding wrap64 ◌+ℤ◌ ◌-ℤ◌
cost_after_close-signed false m k a p hm hk = ground arith
cost_after_close-signed true m k a p hm hk = ground arith

oppose_position-signed :
    (state : ReconciledState) (s : Bool) (m k a p : ℕ) (g : ℤ)
    → state.position ≡ signed s m
    → state.average_cost ≡ pos a
    → 0 < m
    → m < 2 ^ 63
    → k < 2 ^ 63
    → a < 2 ^ 63
    → p < 2 ^ 63
    → mul_amount (pos (min m k)) (gain_per_unit s a p) ≡ ok g
    → oppose_position state (signed (not s) k) (pos p)
      ≡ ok (record state {
        realized_pnl = wrap64 (state.realized_pnl +ℤ g);
        position = signed s m +ℤ signed (not s) k;
        average_cost = cost_behind m k a p;
      })
unfolding oppose_position
oppose_position-signed state s m k a p g ep ea h0 hm hk ha hp hg =
    rw (pnl_per_unit-signed state s m a p ep ea h0 ha hp) (
      rw (ep, ea)
        (rw (closing_quantity-signed s m k hm hk) (
          rw hg (
            rw (closed_position s m k hm hk)
              (rw (abs64-signed (not s) k hk) (rw (cost_after_close-signed s m k a p hm hk)))))))

-- A trade of k units at price p against a position of m units at average cost a, where what it
-- realizes fits in an int64, is folded in without an error. The position moves by exactly k units
-- toward, to or past zero. The profit grows, in wrapping int64 arithmetic, by the exact gain on
-- min m k units, (p - a) a unit for a long and (a - p) for a short, cut off toward zero. The average cost is then 0 for a flat position,
-- p where the position has changed sides, and a where it has not.
pub apply_trade-closes :
    (state : ReconciledState) (s : Bool) (m k a p : ℕ)
    → state.position ≡ signed s m
    → state.average_cost ≡ pos a
    → 0 < m
    → 0 < k
    → m < 2 ^ 63
    → k < 2 ^ 63
    → a < 2 ^ 63
    → p < 2 ^ 63
    → min m k * magnitude (gain_per_unit s a p) < 2 ^ 63 * amount_scale
    → (g : ℤ) × (apply_trade state (signed (not s) k) (pos p)
        ≡ ok (record state {
          realized_pnl = wrap64 (state.realized_pnl +ℤ g);
          position = signed s m +ℤ signed (not s) k;
          average_cost = cost_behind m k a p;
        }))
      × IsQuotient
          (is_negative (gain_per_unit s a p))
          (min m k * magnitude (gain_per_unit s a p))
          amount_scale
          g
apply_trade-closes state s m k a p ep ea h0 hk0 hm hk ha hp fits =
    let (g, hg) = mul_amount-total (pos (min m k)) (gain_per_unit s a p) fits in
    (
      g,
      apply_trade_opposed state (signed (not s) k) (pos p) (rw ep (opposed-signed s m k h0 hk0))
          ∙ oppose_position-signed state s m k a p g ep ea h0 hm hk ha hp hg,
      (mul_amount-exact (pos (min m k)) (gain_per_unit s a p) g hg).1,
    )
