-- ===== src/Processor/Trade.antt =====
-- What applyTrade (internal/processor/processor.go) does to position, cost and profit.
use native.Mathlib.Decide.{dec_lt}
use go_transaction_control_p.Prelude.{
  ◌∙◌, ap, ℕ, ◌+◌, ◌*◌, ◌/◌, ◌^◌, ◌≤◌, ◌<◌, ◌≡◌, Bool, true, false, ok, arith,
}
use go_transaction_control_p.Prelude.Int.{eqb_ℤ, ℤ, pos, ◌+ℤ◌, ◌*ℤ◌, quo}
use go_transaction_control_p.Prelude.Word.{wrap64, wrap64-of_InInt64}
use go_transaction_control_p.Prelude.Signs.{
  signed, mul_signed_pos, quo-signed, quo_same_sign, add_signed, signed-InInt64, div_bounds,
}
use go_transaction_control_p.Ledger.Amount.{amount_scale, mul_amount, div_amount, is_int64}
use go_transaction_control_p.Ledger.Types.{ReconciledState}
use go_transaction_control_p.Processor.{
  same_direction, extend_position, oppose_position, apply_trade,
}

is_int64-signed : (s : Bool) (n : ℕ) → n < 2 ^ 63 → is_int64 (signed s n) ≡ true
is_int64-signed false n h = ground arith
is_int64-signed true n h = ground arith

scaled_product :
    (s : Bool) (n a : ℕ)
    → quo (signed s n *ℤ pos a) (pos amount_scale) ≡ signed s (n * a / amount_scale)
scaled_product false n a = rw mul_signed_pos (quo-signed false (n * a) (pos amount_scale))
scaled_product true n a = mul_first ∙ quo-signed true (n * a) (pos amount_scale)
  where
    mul_first :
        quo (signed true n *ℤ pos a) (pos amount_scale)
        ≡ quo (signed true (n * a)) (pos amount_scale)
    mul_first = ap (λ z. quo z (pos amount_scale)) (mul_signed_pos true n a)

mul_amount-signed :
    (s : Bool) (n a : ℕ)
    → n * a / amount_scale < 2 ^ 63
    → mul_amount (signed s n) (pos a) ≡ ok (signed s (n * a / amount_scale))
unfolding mul_amount
mul_amount-signed s n a h = rw (scaled_product s n a) (rw (is_int64-signed s _ h))

signed-ne-zero : (s : Bool) (d : ℕ) → 0 < d → eqb_ℤ (signed s d) (pos 0) ≡ false
signed-ne-zero false d h = ground arith
signed-ne-zero true d h = ground arith

div_amount-signed :
    (s : Bool) (n d : ℕ)
    → 0 < d
    → n * amount_scale / d < 2 ^ 63
    → div_amount (signed s n) (signed s d) ≡ ok (pos (n * amount_scale / d))
unfolding div_amount
div_amount-signed s n d h k = rw (signed-ne-zero s d h) (
    rw (mul_signed_pos s n amount_scale)
      (rw (quo_same_sign s (n * amount_scale) d h) (rw (is_int64-signed false _ k))))

same_direction-signed :
    (s : Bool) (m k : ℕ) → 0 < k → same_direction (signed s m) (signed s k) ≡ true
same_direction-signed false m k h = ground arith
same_direction-signed true m k h = ground arith

-- The average cost that applyTrade computes from `m` units at `a` and `k` more at `p`.
abbrev pub blended : ℕ → ℕ → ℕ → ℕ → ℕ
blended m a k p = (m * a / amount_scale + k * p / amount_scale) * amount_scale / (m + k)

-- It is the exact weighted average, up to the three divisions that cut off.
blended_bounds :
    (m a k p : ℕ)
    → 0 < k
    → (blended m a k p * (m + k) ≤ m * a + k * p)
      × (m * a + k * p < (blended m a k p + 1) * (m + k) + 2 * amount_scale)
blended_bounds m a k p h =
    let x = m * a / amount_scale in
    let y = k * p / amount_scale in
    omega (
      arith,
      div_bounds (m * a) amount_scale (omega arith),
      div_bounds (k * p) amount_scale (omega arith),
      div_bounds ((x + y) * amount_scale) (m + k) (omega arith),
    )

le_of_mul : (b c n : ℕ) → 0 < n → b * n ≤ c * n → b ≤ c
le_of_mul b c n h k = elim (dec_lt c b) [
  | yes above ↦ absurd (grind arith)
  | no below ↦ omega arith
]

weighted_le : (m a k p c : ℕ) → a ≤ c → p ≤ c → m * a + k * p ≤ c * (m + k)
weighted_le m a k p c ha hp =
    let first : m * a ≤ m * c = grind arith in
    let second : k * p ≤ k * c = grind arith in omega arith

blended_below : (m a k p c : ℕ) → 0 < k → a ≤ c → p ≤ c → blended m a k p ≤ c
blended_below m a k p c h ha hp =
    le_of_mul (blended m a k p) c (m + k) (omega arith)
      (omega (arith, blended_bounds m a k p h, weighted_le m a k p c ha hp))

-- The costs that are added fit in an int64 where their exact sum does.
cost_fits :
    (m a k p : ℕ)
    → m * a + k * p < 2 ^ 63 * amount_scale
    → m * a / amount_scale + k * p / amount_scale < 2 ^ 63
cost_fits m a k p h = omega arith

sum_in_range :
    (s : Bool) (m n : ℕ) → m + n < 2 ^ 63 → wrap64 (signed s m +ℤ signed s n) ≡ signed s (m + n)
sum_in_range s m n h = rw add_signed (wrap64-of_InInt64 _ (signed-InInt64 s (m + n) h))

extend_position-signed :
    (state : ReconciledState) (s : Bool) (m a k p : ℕ)
    → state.position ≡ signed s m
    → state.average_cost ≡ pos a
    → 0 < k
    → m + k < 2 ^ 63
    → blended m a k p < 2 ^ 63
    → m * a + k * p < 2 ^ 63 * amount_scale
    → extend_position state (signed s k) (pos p)
      ≡ ok (record state { average_cost = pos (blended m a k p); position = signed s (m + k) })
unfolding extend_position
extend_position-signed state s m a k p ep ea hk hn small hc =
    let x = m * a / amount_scale in
    let y = k * p / amount_scale in
    let fits = cost_fits m a k p hc in
    rw (ep, ea)
      (rw (mul_amount-signed s m a (omega arith)) (
        rw (mul_amount-signed s k p (omega arith)) (
          rw (sum_in_range s x y fits) (
            rw (sum_in_range s m k hn)
              (rw (div_amount-signed s (x + y) (m + k) (omega arith) small))))))

pub apply_trade_same :
    (state : ReconciledState) (q p : ℤ)
    → same_direction state.position q ≡ true
    → apply_trade state q p ≡ extend_position state q p
unfolding apply_trade
apply_trade_same state q p h = rw h

pub apply_trade_opposed :
    (state : ReconciledState) (q p : ℤ)
    → same_direction state.position q ≡ false
    → apply_trade state q p ≡ oppose_position state q p
unfolding apply_trade
apply_trade_opposed state q p h = rw h

-- A trade of k units at price p in the direction of a position of m units at average cost a (both
-- long or both short, or no position), with both prices at most c, where the sums fit in an int64,
-- is folded in without an error. It changes position and average cost alone: the position grows by
-- k, and the new average cost is the exact weighted average less what three divisions cut off, and
-- at most c.
pub apply_trade-extends :
    (state : ReconciledState) (s : Bool) (m a k p c : ℕ)
    → state.position ≡ signed s m
    → state.average_cost ≡ pos a
    → 0 < k
    → m + k < 2 ^ 63
    → a ≤ c
    → p ≤ c
    → c < 2 ^ 63
    → m * a + k * p < 2 ^ 63 * amount_scale
    → (average : ℕ) × (apply_trade state (signed s k) (pos p)
        ≡ ok (record state { average_cost = pos average; position = signed s (m + k) }))
      × (average * (m + k) ≤ m * a + k * p)
      × (m * a + k * p < (average + 1) * (m + k) + 2 * amount_scale)
      × (average ≤ c)
apply_trade-extends state s m a k p c ep ea hk hn ha hp hc fits =
    let (low, high) = blended_bounds m a k p hk in
    let most = blended_below m a k p c hk ha hp in
    (
      blended m a k p,
      apply_trade_same state (signed s k) (pos p) (rw ep (same_direction-signed s m k hk))
          ∙ extend_position-signed state s m a k p ep ea hk hn (omega arith) fits,
      low,
      high,
      most,
    )
