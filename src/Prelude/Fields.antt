-- ===== src/Prelude/Fields.antt =====
-- Texts with their length in front, and integers, one behind the other: an encoding for the tests.
use mathlib.Core.Path.{◌≡◌, refl, ap}
use mathlib.Core.List.{[], ◌∷◌, ◌++◌}
use Prim.Native.Nat.{zero, suc}
use go_transaction_control_p.Prelude.Lists.{Bytes, length, take, drop}
use go_transaction_control_p.Prelude.Int.{ℤ, pos, negsuc}

unfoldable pub put : Bytes → Bytes → Bytes
put s rest = length s ∷ (s ++ rest)

unfoldable pub first_text : Bytes → Bytes
first_text [] = []
first_text (n ∷ s) = take n s

unfoldable pub rest_of : Bytes → Bytes
rest_of [] = []
rest_of (n ∷ s) = drop n s

pub first_text-put : (s rest : Bytes) → first_text (put s rest) ≡ s
unfolding first_text put
first_text-put [] rest = refl
first_text-put (c ∷ s) rest = ap (λ r. c ∷ r) (first_text-put s rest)

pub rest_of-put : (s rest : Bytes) → rest_of (put s rest) ≡ rest
unfolding rest_of put
rest_of-put [] rest = refl
rest_of-put (c ∷ s) rest = rest_of-put s rest

unfoldable pub put_number : ℤ → Bytes
put_number (pos n) = 0 ∷ n ∷ []
put_number (negsuc n) = 1 ∷ n ∷ []

unfoldable pub number : Bytes → ℤ
number (zero ∷ n ∷ s) = pos n
number (suc _ ∷ n ∷ s) = negsuc n
number _ = pos 0

pub number-put_number : (z : ℤ) (rest : Bytes) → number (put_number z ++ rest) ≡ z
unfolding number put_number
number-put_number (pos n) rest = refl
number-put_number (negsuc n) rest = refl

pub drop-put_number : (z : ℤ) (rest : Bytes) → drop 2 (put_number z ++ rest) ≡ rest
unfolding put_number
drop-put_number (pos n) rest = refl
drop-put_number (negsuc n) rest = refl
