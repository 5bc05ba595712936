-- ===== src/Ledger/Amount.antt =====
-- internal/ledger/amount.go: decimal texts and fixed-point int64 amounts. The `int64` arithmetic
-- ends in `wrap64`; `math/big` is the integers themselves. What the code uses of `strconv` and
-- `strings` is `parse_uint`, `atoi`, `format_uint`, `cut` and `index_exponent`.
pub mod Exact
pub mod Digits
pub mod RoundTrip
pub mod Text
mod Tests
use go_transaction_control_p.Prelude.{
  ℕ, zero, suc, ◌+◌, ◌-◌, ◌*◌, ◌/◌, ◌%◌, ◌^◌, Bool, true, false, not, ◌&&◌, ◌||◌, Option, none,
  some, List, [], ◌∷◌, ◌++◌, Bytes, ltb, leb, ◌==◌, if◌then◌else◌, length, take, drop, replicate,
  Result, ok, err, ◌>>=◌, ◌>>◌, fail_if, or_fail,
}
use go_transaction_control_p.Prelude.Int.{
  ℤ, pos, negsuc, magnitude, pos_part, neg_part, ◌+ℤ◌, ◌-ℤ◌, ◌*ℤ◌, neg, quo, ltb_ℤ, eqb_ℤ,
}
use go_transaction_control_p.Prelude.Word.{wrap64, bits64}

abbrev pub amount_scale : ℕ
amount_scale = 100000000

abbrev pub amount_fraction_digits : ℕ
amount_fraction_digits = 8

-- 10^10 whole units, scaled.
abbrev pub max_amount : ℕ
max_amount = 10000000000 * 100000000

abbrev pub max_u64 : ℕ
max_u64 = 2 ^ 64 - 1

abbrev pub max_i64 : ℕ
max_i64 = 2 ^ 63 - 1

pub data AmountError : Type 0 where
  empty_amount not_decimal bad_exponent exponent_out_of_range too_precise : AmountError
  out_of_range magnitude_too_large division_by_zero overflow : AmountError

abbrev pub is_digit : ℕ → Bool
is_digit c = leb b'0' c && leb c b'9'

-- The Go loop is over runes: a byte of a longer rune is no digit either.
unfoldable pub is_digits : Bytes → Bool
is_digits [] = true
is_digits (c ∷ s) = is_digit c && is_digits s

-- `strconv.ParseUint(s, 10, 64)`, on the digits behind `n`.
unfoldable pub parse_uint_from : ℕ → Bytes → Option ℕ
parse_uint_from n [] = some n
parse_uint_from n (c ∷ s) =
    let rest = parse_uint_from (n * 10 + (c - b'0')) s in
    if not (is_digit c) || ltb max_u64 (n * 10 + (c - b'0')) then none else rest

unfoldable pub parse_uint : Bytes → Option ℕ
unfolding parse_uint_from
parse_uint [] = none
parse_uint (c ∷ s) = parse_uint_from 0 (c ∷ s)

-- `strconv.Atoi` behind its sign.
atoi_magnitude : Bool → Option ℕ → Option ℤ
atoi_magnitude negative none = none
atoi_magnitude true (some n) = if ltb (2 ^ 63) n then none else some (neg (pos n))
atoi_magnitude false (some n) = if ltb max_i64 n then none else some (pos n)

unfoldable pub atoi : Bytes → Option ℤ
unfolding atoi_magnitude parse_uint
atoi [] = none
atoi (c ∷ s) =
    if c == b'-'
    then atoi_magnitude true (parse_uint s)
    else if c == b'+'
    then atoi_magnitude false (parse_uint s)
    else atoi_magnitude false (parse_uint (c ∷ s))

-- `strings.Cut(s, sep)` at a separator of one byte.
unfoldable pub cut : ℕ → Bytes → Bytes × Bytes
cut sep [] = ([], [])
cut sep (c ∷ s) = if c == sep then ([], s) else (c ∷ (cut sep s).0, (cut sep s).1)

-- `strings.IndexAny(s, "eE")`.
unfoldable pub index_exponent : Bytes → Option ℕ
index_exponent [] = none
index_exponent (c ∷ s) =
    if c == b'e' || c == b'E'
    then some 0
    else elim (index_exponent s) [ none ↦ none | some i ↦ some (suc i) ]

-- The loop of `mulPow10`: `power` rounds.
mul_pow10_loop : ℕ → ℕ → Result AmountError ℕ
mul_pow10_loop zero result = ok result
mul_pow10_loop (suc power) result =
    let rest = mul_pow10_loop power (result * 10 % 2 ^ 64) in
    if ltb (max_u64 / 10) result then err magnitude_too_large else rest

unfoldable pub mul_pow10 : ℕ → ℤ → Result AmountError ℕ
unfolding mul_pow10_loop
mul_pow10 base power =
    if base == 0
    then ok 0
    else if ltb_ℤ power (pos 0) || ltb_ℤ (pos 19) power
    then err magnitude_too_large
    else mul_pow10_loop (pos_part power) base

abbrev pub is_empty : Bytes → Bool
is_empty [] = true
is_empty (_ ∷ _) = false

-- An optional leading sign: whether it is `-`, and the rest.
abbrev pub split_sign : Bytes → Bool × Bytes
split_sign [] = (false, [])
split_sign (c ∷ s) = if c == b'-' || c == b'+' then (c == b'-', s) else (false, c ∷ s)

-- The mantissa and the exponent of scientific notation.
unfoldable pub split_exponent : Bytes → Result AmountError (Bytes × ℤ)
unfolding index_exponent atoi
split_exponent rest = elim (index_exponent rest) [
  | none ↦ ok (rest, pos 0)
  | some idx ↦ do
    parsed ← or_fail (atoi (drop (idx + 1) rest)) bad_exponent
    fail_if (ltb_ℤ parsed (negsuc 999) || ltb_ℤ (pos 1000) parsed) exponent_out_of_range
    ok (take idx rest, parsed)
]

-- `magnitude * 10^power`, exactly.
unfoldable pub rescale : ℕ → ℤ → Result AmountError ℕ
unfolding mul_pow10 neg
rescale m power =
    if ltb_ℤ power (pos 0)
    then (do
      divisor ← mul_pow10 1 (neg power)
      fail_if (not (m % divisor == 0)) too_precise
      ok (m / divisor))
    else mul_pow10 m power

-- The end of `ParseAmount`: the mantissa's digits, the power of ten and the sign.
unfoldable pub parse_mantissa : Bool → Bytes → ℤ → Result AmountError ℤ
parse_mantissa negative mantissa exponent = do
  let (whole_part, frac_part) = cut b'.' mantissa
  fail_if (is_empty whole_part || not (is_digits whole_part) || not (is_digits frac_part))
      not_decimal
  m ← or_fail (parse_uint (whole_part ++ frac_part)) not_decimal
  scaled ← rescale m (exponent -ℤ pos (length frac_part) +ℤ pos amount_fraction_digits)
  fail_if (ltb max_i64 scaled) out_of_range
  ok (if negative then wrap64 (neg (pos scaled)) else pos scaled)

unfoldable pub parse_amount : Bytes → Result AmountError ℤ
parse_amount value = do
  fail_if (is_empty value) empty_amount
  let (negative, rest) = split_sign value
  fail_if (is_empty rest) not_decimal
  (mantissa, exponent) ← split_exponent rest
  parse_mantissa negative mantissa exponent

-- `strconv.FormatUint(n, 10)`: at most twenty rounds, since 2^64 < 10^20.
format_digits : ℕ → ℕ → Bytes → Bytes
format_digits zero n out = out
format_digits (suc rounds) n out =
    let rest = format_digits rounds (n / 10) ((b'0' + n % 10) ∷ out) in if n == 0 then out else rest

unfoldable pub format_uint : ℕ → Bytes
unfolding format_digits
format_uint n = if n == 0 then b'0' ∷ [] else format_digits 20 n []

-- The absolute value as FormatAmount computes it, `-(value + 1)` and then `+ 1` as a uint64.
unfoldable pub unsigned_magnitude : ℤ → ℕ
unfolding wrap64 neg ◌+ℤ◌
unsigned_magnitude value =
    if ltb_ℤ value (pos 0)
    then (bits64 (wrap64 (neg (wrap64 (value +ℤ pos 1)))) + 1) % 2 ^ 64
    else bits64 value

-- Zeros in front, so that at least one digit stands before the fraction.
unfoldable pub pad_digits : Bytes → Bytes
pad_digits ds =
    if leb (length ds) amount_fraction_digits
    then replicate (amount_fraction_digits - length ds + 1) b'0' ++ ds
    else ds

unfoldable pub format_amount : ℤ → Bytes
format_amount value =
    let ds = pad_digits (format_uint (unsigned_magnitude value)) in
    let split = length ds - amount_fraction_digits in
    let text = take split ds ++ (b'.' ∷ drop split ds) in
    if ltb_ℤ value (pos 0) then b'-' ∷ text else text

-- `big.Int.IsInt64`.
abbrev pub is_int64 : ℤ → Bool
is_int64 (pos n) = ltb n (2 ^ 63)
is_int64 (negsuc n) = ltb n (2 ^ 63)

unfoldable pub mul_amount : ℤ → ℤ → Result AmountError ℤ
mul_amount multiplicand multiplier =
    let product = quo (multiplicand *ℤ multiplier) (pos amount_scale) in
    if is_int64 product then ok product else err overflow

unfoldable pub div_amount : ℤ → ℤ → Result AmountError ℤ
div_amount dividend divisor =
    let quotient = quo (dividend *ℤ pos amount_scale) divisor in
    if eqb_ℤ divisor (pos 0)
    then err division_by_zero
    else if is_int64 quotient
    then ok quotient
    else err overflow
