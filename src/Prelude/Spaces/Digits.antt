-- ===== src/Prelude/Spaces/Digits.antt =====
-- Texts of digits have no spaces to trim, and fields without the separator split as they were joined.
use Prim.Native.Nat.{ℕ, ◌≤◌}
use mathlib.Core.Path.{◌≡◌, refl, ap}
use mathlib.Core.Logic.{◌≢◌}
use mathlib.Core.Bool.{false}
use mathlib.Core.List.{[], ◌∷◌, ◌++◌}
use native.Mathlib.Omega.{arith}
use go_transaction_control_p.Prelude.Lists.{Bytes, All}
use go_transaction_control_p.Prelude.Spaces.{
  space_length, trim_left, is_blank, trim_right, trim_space, split,
}

abbrev pub IsDigitByte : ℕ → Type 0
IsDigitByte c = (48 ≤ c) × (c ≤ 57)

space_length-digit : (c : ℕ) (s : Bytes) → IsDigitByte c → space_length (c ∷ s) ≡ 0
unfolding space_length
space_length-digit c [] d = ground arith
space_length-digit c (b ∷ []) d = ground arith
space_length-digit c (b ∷ e ∷ s) d = ground arith

trim_left-digits : (s : Bytes) → All IsDigitByte s → trim_left s ≡ s
unfolding trim_left
trim_left-digits [] h = refl
trim_left-digits (c ∷ s) h = rw (space_length-digit c s h.0) refl

is_blank-digits : (c : ℕ) (s : Bytes) → All IsDigitByte (c ∷ s) → is_blank (c ∷ s) ≡ false
unfolding is_blank
is_blank-digits c s h = rw (trim_left-digits (c ∷ s) h) refl

trim_right-digits : (s : Bytes) → All IsDigitByte s → trim_right s ≡ s
unfolding trim_right
trim_right-digits [] h = refl
trim_right-digits (c ∷ s) h = rw (is_blank-digits c s h) (ap (λ r. c ∷ r) (trim_right-digits s h.1))

pub trim_space-digits : (s : Bytes) → All IsDigitByte s → trim_space s ≡ s
unfolding trim_space
trim_space-digits s h = rw (trim_left-digits s h) (trim_right-digits s h)

pub split_one : (sep : ℕ) (s : Bytes) → All (λ c. c ≢ sep) s → split sep s ≡ s ∷ []
unfolding split
split_one sep [] h = refl
split_one sep (c ∷ s) h = rw (split_one sep s h.1) (ground arith)

pub split-append :
    (sep : ℕ) (s rest : Bytes)
    → All (λ c. c ≢ sep) s
    → split sep (s ++ (sep ∷ rest)) ≡ s ∷ split sep rest
unfolding split
split-append sep [] rest h = ground arith
split-append sep (c ∷ s) rest h = rw (split-append sep s rest h.1) (ground arith)
