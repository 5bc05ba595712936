-- ===== src/Ledger/Amount/Digits.antt =====
-- Decimal digits: what ParseUint reads and FormatUint writes.
use native.Mathlib.Nat.{pow-suc}
use go_transaction_control_p.Prelude.{
  ℕ, zero, suc, ◌+◌, ◌-◌, ◌*◌, ◌/◌, ◌%◌, ◌^◌, ◌≤◌, ◌<◌, ◌≡◌, ◌≢◌, refl, ap, true, some, [], ◌∷◌,
  ◌++◌, Bytes, All, All-append, All-replicate, replicate, length, length-append, length-replicate,
  arith,
}
use go_transaction_control_p.Ledger.Amount.{
  max_u64, is_digits, parse_uint_from, parse_uint, format_digits, format_uint, pad_digits,
  amount_fraction_digits,
}

abbrev pub IsDigit : ℕ → Type 0
IsDigit c = (b'0' ≤ c) × (c ≤ b'9')

-- The number that digits spell behind `n`, with no bound.
abbrev pub value : ℕ → Bytes → ℕ
value n [] = n
value n (c ∷ s) = value (n * 10 + (c - b'0')) s

le-value : (n : ℕ) (s : Bytes) → n ≤ value n s
le-value n [] = omega arith
le-value n (c ∷ s) = omega (arith, le-value (n * 10 + (c - b'0')) s)

parse_uint_from-value :
    (n : ℕ) (s : Bytes)
    → All IsDigit s
    → value n s ≤ max_u64
    → parse_uint_from n s ≡ some (value n s)
unfolding parse_uint_from
parse_uint_from-value n [] h fits = refl
parse_uint_from-value n (c ∷ s) h fits =
    let m = n * 10 + (c - b'0') in ground (arith, le-value m s, parse_uint_from-value m s h.1 fits)

pub parse_uint-value :
    (s : Bytes) → s ≢ [] → All IsDigit s → value 0 s ≤ max_u64 → parse_uint s ≡ some (value 0 s)
unfolding parse_uint
parse_uint-value [] h d fits = absurd (h refl)
parse_uint-value (c ∷ s) h d fits = parse_uint_from-value 0 (c ∷ s) d fits

pub is_digits-of_All : (s : Bytes) → All IsDigit s → is_digits s ≡ true
unfolding is_digits
is_digits-of_All [] h = refl
is_digits-of_All (c ∷ s) h = ground (arith, is_digits-of_All s h.1)

pow_ten_suc : (r : ℕ) → 10 ^ suc r ≡ 10 * 10 ^ r
pow_ten_suc r = rw pow-suc (omega arith)

last_digit : (n : ℕ) → n / 10 * 10 + (b'0' + n % 10 - b'0') ≡ n
last_digit n = omega arith

value-format_digits :
    (r n : ℕ) (out : Bytes) → n < 10 ^ r → value 0 (format_digits r n out) ≡ value n out
unfolding format_digits
value-format_digits zero n out h = ap (λ k. value k out) (let e : 0 ≡ n = omega arith in e)
value-format_digits (suc r) n out h = ground (
  arith,
  last_digit n,
  value-format_digits r (n / 10) ((b'0' + n % 10) ∷ out) (omega (arith, pow_ten_suc r)),
)

format_digits-IsDigit :
    (r n : ℕ) (out : Bytes) → All IsDigit out → All IsDigit (format_digits r n out)
unfolding format_digits
format_digits-IsDigit zero n out h = h
format_digits-IsDigit (suc r) n out h =
    ground (arith, format_digits-IsDigit r (n / 10) ((b'0' + n % 10) ∷ out))

pub format_uint-IsDigit : (n : ℕ) → All IsDigit (format_uint n)
unfolding format_uint
format_uint-IsDigit n = ground (arith, format_digits-IsDigit 20 n [] tt)

format_digits-ne-nil : (r n c : ℕ) (out : Bytes) → format_digits r n (c ∷ out) ≢ []
unfolding format_digits
format_digits-ne-nil zero n c out h = cc
format_digits-ne-nil (suc r) n c out h =
    ground (arith, format_digits-ne-nil r (n / 10) (b'0' + n % 10) (c ∷ out))

pub format_uint-ne-nil : (n : ℕ) → format_uint n ≢ []
unfolding format_uint format_digits
format_uint-ne-nil n h = ground (arith, format_digits-ne-nil 19 (n / 10) (b'0' + n % 10) [])

pub value-format_uint : (n : ℕ) → n < 2 ^ 64 → value 0 (format_uint n) ≡ n
unfolding format_uint
value-format_uint n h = ground (arith, value-format_digits 20 n [] (omega arith))

value-replicate : (k : ℕ) (s : Bytes) → value 0 (replicate k b'0' ++ s) ≡ value 0 s
value-replicate zero s = refl
value-replicate (suc k) s = value-replicate k s

pub value-pad_digits : (s : Bytes) → value 0 (pad_digits s) ≡ value 0 s
unfolding pad_digits
value-pad_digits s = ground (arith, value-replicate (amount_fraction_digits - length s + 1) s)

pub pad_digits-IsDigit : (s : Bytes) → All IsDigit s → All IsDigit (pad_digits s)
unfolding pad_digits
pad_digits-IsDigit s h =
    let k = amount_fraction_digits - length s + 1 in
    ground (
      arith,
      All-append IsDigit (replicate k b'0') s (All-replicate IsDigit k b'0' (omega arith)) h,
    )

pub pad_digits_long : (s : Bytes) → amount_fraction_digits < length (pad_digits s)
unfolding pad_digits
pad_digits_long s =
    let k = amount_fraction_digits - length s + 1 in
    ground (arith, length-append (replicate k b'0') s, length-replicate {A = ℕ} k b'0')
