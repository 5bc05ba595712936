-- ===== src/Prelude/Word.antt =====
-- Fixed-width signed integers of Go: an `int64` or `int32` is the integer that it stands for, and
-- an operation that may leave the range ends in the wrap-around of two's complement.
use Prim.Native.Nat.{ℕ, ◌-◌, ◌%◌, ◌^◌, ◌≤◌, ◌<◌}
use mathlib.Core.Path.{◌≡◌}
use native.Mathlib.Omega.{arith}
use go_transaction_control_p.Prelude.Tests.{ltb, if◌then◌else◌}
use go_transaction_control_p.Prelude.Int.{ℤ, pos, negsuc, pos_part, neg_part}

-- The bit pattern of an integer at 64 and at 32 bits.
abbrev pub bits64 : ℤ → ℕ
bits64 (pos n) = n % 2 ^ 64
bits64 (negsuc n) = 2 ^ 64 - 1 - n % 2 ^ 64

abbrev pub bits32 : ℤ → ℕ
bits32 (pos n) = n % 2 ^ 32
bits32 (negsuc n) = 2 ^ 32 - 1 - n % 2 ^ 32

-- The integer that the low bits of `z` stand for.
unfoldable pub wrap64 : ℤ → ℤ
wrap64 z = let w = bits64 z in if ltb w (2 ^ 63) then pos w else negsuc (2 ^ 64 - 1 - w)

unfoldable pub wrap32 : ℤ → ℤ
wrap32 z = let w = bits32 z in if ltb w (2 ^ 31) then pos w else negsuc (2 ^ 32 - 1 - w)

abbrev pub InInt64 : ℤ → Type 0
InInt64 z = (pos_part z < 2 ^ 63) × (neg_part z ≤ 2 ^ 63)

abbrev pub InInt32 : ℤ → Type 0
InInt32 z = (pos_part z < 2 ^ 31) × (neg_part z ≤ 2 ^ 31)

-- A value in range is its own representative.
pub wrap64-of_InInt64 : (z : ℤ) → InInt64 z → wrap64 z ≡ z
unfolding wrap64
wrap64-of_InInt64 (pos n) h = ground arith
wrap64-of_InInt64 (negsuc n) h = ground arith

pub wrap32-of_InInt32 : (z : ℤ) → InInt32 z → wrap32 z ≡ z
unfolding wrap32
wrap32-of_InInt32 (pos n) h = ground arith
wrap32-of_InInt32 (negsuc n) h = ground arith

pub wrap64-InInt64 : (z : ℤ) → InInt64 (wrap64 z)
unfolding wrap64
wrap64-InInt64 (pos n) = ground arith
wrap64-InInt64 (negsuc n) = ground arith

pub wrap32-InInt32 : (z : ℤ) → InInt32 (wrap32 z)
unfolding wrap32
wrap32-InInt32 (pos n) = ground arith
wrap32-InInt32 (negsuc n) = ground arith
