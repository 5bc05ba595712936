-- ===== src/Ledger/Amount/Exact.antt =====
-- MulAmount and DivAmount (internal/ledger/amount.go) against exact rational arithmetic.
use mathlib.Core.Path.{subst}
use native.Mathlib.Decide.{dec_lt}
use go_transaction_control_p.Prelude.{
  ℕ, Bool, false, refl, zero, suc, ◌+◌, ◌*◌, ◌/◌, ◌^◌, ◌≤◌, ◌<◌, ◌≡◌, ◌≢◌, true, Result, ok, err,
  arith, if◌then◌else◌,
}
use go_transaction_control_p.Prelude.Int.{ℤ, pos, negsuc, eqb_ℤ, magnitude, ◌*ℤ◌, quo, ◌≤ℤ◌}
use go_transaction_control_p.Prelude.Word.{InInt64}
use go_transaction_control_p.Prelude.Signs.{
  differ, signed, signs_differ, mul-signed, quo-signed, div_bounds, magnitude-signed,
}
use go_transaction_control_p.Ledger.Amount.{
  AmountError, mul_amount, div_amount, amount_scale, overflow, is_int64, division_by_zero,
}

-- `q` is `n / d` cut off toward zero, or its opposite.
pub record IsQuotient (negative : Bool) (n d : ℕ) (q : ℤ) : Type 0 where
  pub below : magnitude q * d ≤ n
  pub above : n < (magnitude q + 1) * d
  pub sign : if negative then q ≤ℤ pos 0 else (pos 0 ≤ℤ q)

signed-IsQuotient : (s : Bool) (n d : ℕ) → 0 < d → IsQuotient s n d (signed s (n / d))
signed-IsQuotient false n d h = record {
  below = (div_bounds n d h).0;
  above = (div_bounds n d h).1;
  sign = omega arith;
}
signed-IsQuotient true n d h = record {
  below = rw (magnitude-signed true (n / d)) (div_bounds n d h).0;
  above = rw (magnitude-signed true (n / d)) (div_bounds n d h).1;
  sign = ground arith;
}

in_range : (q : ℤ) → is_int64 q ≡ true → InInt64 q
in_range (pos n) h = ground arith
in_range (negsuc n) h = ground arith

lt_of_mul : (m n k d : ℕ) → m * d ≤ n → n < k * d → m < k
lt_of_mul m n k d h small = elim (dec_lt m k) [ yes fits ↦ fits | no big ↦ absurd (grind arith) ]

is_int64-of_magnitude : (q : ℤ) → magnitude q < 2 ^ 63 → is_int64 q ≡ true
is_int64-of_magnitude (pos n) h = ground arith
is_int64-of_magnitude (negsuc n) h = ground arith

-- The last test of both functions.
checked : ℤ → Result AmountError ℤ
checked q = if is_int64 q then ok q else err overflow

checked_ok : (q r : ℤ) → checked q ≡ ok r → (q ≡ r) × (is_int64 q ≡ true)
unfolding checked
checked_ok q r h = ground arith

differ-false : (s : Bool) → differ s false ≡ s
differ-false false = refl
differ-false true = refl

mul_quotient :
    (a b : ℤ)
    → quo (a *ℤ b) (pos amount_scale)
      ≡ signed (signs_differ a b) (magnitude a * magnitude b / amount_scale)
mul_quotient a b = simp (mul-signed, quo-signed, differ-false)

mul-IsQuotient :
    (a b : ℤ)
    → IsQuotient
        (signs_differ a b)
        (magnitude a * magnitude b)
        amount_scale
        (quo (a *ℤ b) (pos amount_scale))
mul-IsQuotient a b = rw mul_quotient (signed-IsQuotient _ _ amount_scale (omega arith))

-- A product that MulAmount returns is the exact product over the scale, cut off toward zero, with
-- its sign, and it lies in the int64 range.
pub mul_amount-exact :
    (a b r : ℤ)
    → mul_amount a b ≡ ok r
    → InInt64 r × IsQuotient (signs_differ a b) (magnitude a * magnitude b) amount_scale r
unfolding mul_amount checked
mul_amount-exact a b r h =
    let (e, fits) = checked_ok _ r h in
    subst
      (λ q. InInt64 q × IsQuotient (signs_differ a b) (magnitude a * magnitude b) amount_scale q) e
      (in_range _ fits, mul-IsQuotient a b)

-- MulAmount returns a product for every pair of amounts whose exact product over the scale has a
-- magnitude below 2^63.
pub mul_amount-total :
    (a b : ℤ)
    → magnitude a * magnitude b < 2 ^ 63 * amount_scale
    → (r : ℤ) × (mul_amount a b ≡ ok r)
unfolding mul_amount
mul_amount-total a b small =
    let fits = lt_of_mul _ _ (2 ^ 63) amount_scale (mul-IsQuotient a b).below small in
    (quo (a *ℤ b) (pos amount_scale), rw (is_int64-of_magnitude _ fits))

positive : (b : ℤ) → b ≢ pos 0 → 0 < magnitude b
positive (pos zero) h = absurd (h refl)
positive (pos (suc n)) h = omega arith
positive (negsuc n) h = omega arith

div_quotient :
    (a b : ℤ)
    → quo (a *ℤ pos amount_scale) b
      ≡ signed (signs_differ a b) (magnitude a * amount_scale / magnitude b)
div_quotient a b = simp (mul-signed, quo-signed, differ-false)

div-IsQuotient :
    (a b : ℤ)
    → b ≢ pos 0
    → IsQuotient
        (signs_differ a b)
        (magnitude a * amount_scale)
        (magnitude b)
        (quo (a *ℤ pos amount_scale) b)
div-IsQuotient a b h = rw div_quotient (signed-IsQuotient _ _ (magnitude b) (positive b h))

div_test :
    (b : ℤ) (x : Result AmountError ℤ) (r : ℤ)
    → (if eqb_ℤ b (pos 0) then err division_by_zero else x) ≡ ok r
    → (b ≢ pos 0) × (x ≡ ok r)
div_test (pos zero) x r h = cc
div_test (pos (suc n)) x r h = ground arith
div_test (negsuc n) x r h = ground arith

-- A quotient that DivAmount returns is the exact quotient times the scale, cut off toward zero, with
-- the sign of a quotient, and it lies in the int64 range; the divisor was not 0.
pub div_amount-exact :
    (a b r : ℤ)
    → div_amount a b ≡ ok r
    → (b ≢ pos 0)
      × InInt64 r
      × IsQuotient (signs_differ a b) (magnitude a * amount_scale) (magnitude b) r
unfolding div_amount checked
div_amount-exact a b r h =
    let (nonzero, h') = div_test b _ r h in
    let (e, fits) = checked_ok _ r h' in
    (
      nonzero,
      subst InInt64 e (in_range _ fits),
      subst (IsQuotient (signs_differ a b) (magnitude a * amount_scale) (magnitude b)) e
          (div-IsQuotient a b nonzero),
    )
