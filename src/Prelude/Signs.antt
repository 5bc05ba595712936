-- ===== src/Prelude/Signs.antt =====
-- Products and truncating quotients of integers by their magnitudes and signs.
use go_transaction_control_p.Prelude.Word.{InInt64}
use go_transaction_control_p.Prelude.{◌^◌}
use Prim.Native.Nat.{ℕ, zero, suc, ◌+◌, ◌*◌, ◌/◌, ◌≤◌, ◌<◌}
use mathlib.Core.Path.{◌≡◌, refl}
use mathlib.Core.Bool.{Bool, true, false}
use native.Mathlib.Omega.{arith}
use go_transaction_control_p.Prelude.Int.{◌+ℤ◌, ℤ, pos, negsuc, magnitude, sub_ℕ, ◌*ℤ◌, quo}

abbrev pub is_negative : ℤ → Bool
is_negative (pos n) = false
is_negative (negsuc n) = true

abbrev pub differ : Bool → Bool → Bool
differ false b = b
differ true false = true
differ true true = false

-- The number `n` or its opposite.
abbrev pub signed : Bool → ℕ → ℤ
signed false n = pos n
signed true n = sub_ℕ 0 n

abbrev pub signs_differ : ℤ → ℤ → Bool
signs_differ a b = differ (is_negative a) (is_negative b)

pub mul-signed : (a b : ℤ) → a *ℤ b ≡ signed (signs_differ a b) (magnitude a * magnitude b)
unfolding ◌*ℤ◌
mul-signed (pos a) (pos b) = grind arith
mul-signed (pos a) (negsuc b) = grind arith
mul-signed (negsuc a) (pos b) = grind arith
mul-signed (negsuc a) (negsuc b) = grind arith

opposite_suc : (n : ℕ) → sub_ℕ 0 (suc n) ≡ negsuc n
opposite_suc n = ground arith

pub quo-signed :
    (s : Bool) (n : ℕ) (b : ℤ)
    → quo (signed s n) b ≡ signed (differ s (is_negative b)) (n / magnitude b)
unfolding quo
quo-signed false n (pos b) = refl
quo-signed false n (negsuc b) = refl
quo-signed true zero (pos b) = grind arith
quo-signed true (suc n) (pos b) = rw opposite_suc
quo-signed true zero (negsuc b) = grind arith
quo-signed true (suc n) (negsuc b) = rw opposite_suc

pub div_bounds : (n d : ℕ) → 0 < d → (n / d * d ≤ n) × (n < (n / d + 1) * d)
div_bounds n d h = grind arith

pub magnitude-signed : (s : Bool) (n : ℕ) → magnitude (signed s n) ≡ n
magnitude-signed false n = refl
magnitude-signed true n = ground arith

pub mul_signed_pos : (s : Bool) (n a : ℕ) → signed s n *ℤ pos a ≡ signed s (n * a)
unfolding ◌*ℤ◌
mul_signed_pos false n a = grind arith
mul_signed_pos true zero a = grind arith
mul_signed_pos true (suc n) a = rw opposite_suc (grind arith)

pub quo_same_sign : (s : Bool) (n d : ℕ) → 0 < d → quo (signed s n) (signed s d) ≡ pos (n / d)
quo_same_sign false n d h = quo-signed false n (pos d)
quo_same_sign true n zero h = absurd (omega arith)
quo_same_sign true n (suc d) h = rw (opposite_suc d) (quo-signed true n (negsuc d))

pub add_signed : (s : Bool) (m n : ℕ) → signed s m +ℤ signed s n ≡ signed s (m + n)
unfolding ◌+ℤ◌
add_signed false m n = ground arith
add_signed true m n = ground arith

pub signed-InInt64 : (s : Bool) (n : ℕ) → n < 2 ^ 63 → InInt64 (signed s n)
signed-InInt64 false n h = ground arith
signed-InInt64 true n h = ground arith
