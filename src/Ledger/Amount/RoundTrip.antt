-- ===== src/Ledger/Amount/RoundTrip.antt =====
-- ParseAmount reads back what FormatAmount writes (internal/ledger/amount.go).
use mathlib.Core.List.{cons-ne-nil}
use go_transaction_control_p.Prelude.{
  ap, err, ◌∙◌, ltb, ℕ, zero, suc, ◌-◌, ◌^◌, ◌≤◌, ◌<◌, ◌≡◌, ◌≢◌, refl, true, false, Bool, none,
  List, [], ◌∷◌, ◌++◌, Bytes, All, All-append, All-take, All-drop, All-imp, take, drop,
  take-append-drop, length-drop, length, ok, if◌then◌else◌, arith,
}
use go_transaction_control_p.Prelude.Int.{
  ltb_ℤ, ℤ, pos, negsuc, magnitude, neg, ◌+ℤ◌, ◌-ℤ◌, int_laws,
}
use go_transaction_control_p.Prelude.Word.{wrap64}
use go_transaction_control_p.Ledger.Amount.{
  out_of_range, parse_uint, is_digits, is_empty, amount_fraction_digits, cut, index_exponent,
  split_sign, split_exponent, mul_pow10, rescale, parse_mantissa, parse_amount, unsigned_magnitude,
  max_i64, format_uint, pad_digits, format_amount,
}
use go_transaction_control_p.Ledger.Amount.Digits.{
  IsDigit, value, parse_uint-value, is_digits-of_All, format_uint-IsDigit, value-format_uint,
  value-pad_digits, pad_digits-IsDigit, pad_digits_long,
}

-- A byte of a plain decimal: a digit or the point.
abbrev IsPlain : ℕ → Type 0
IsPlain c = (b'.' ≤ c) × (c ≤ b'9')

cut-point : (s t : Bytes) → All IsDigit s → cut b'.' (s ++ (b'.' ∷ t)) ≡ (s, t)
unfolding cut
cut-point [] t h = refl
cut-point (c ∷ s) t h = ground (arith, cut-point s t h.1)

index_exponent-plain : (s : Bytes) → All IsPlain s → index_exponent s ≡ none
unfolding index_exponent
index_exponent-plain [] h = refl
index_exponent-plain (c ∷ s) h = ground (arith, index_exponent-plain s h.1)

split_exponent-plain : (s : Bytes) → All IsPlain s → split_exponent s ≡ ok (s, pos 0)
unfolding split_exponent
split_exponent-plain s h = rw (index_exponent-plain s h, split_exponent)

split_sign-plain : (s : Bytes) → All IsPlain s → split_sign s ≡ (false, s)
split_sign-plain [] h = refl
split_sign-plain (c ∷ s) h = ground arith

rescale-zero : (m : ℕ) → rescale m (pos 0) ≡ ok m
unfolding rescale mul_pow10
rescale-zero m = ground arith

fits_int64 : (v : ℕ) → v < 2 ^ 63 → ltb max_i64 v ≡ false
fits_int64 v h = ground arith

no_shift :
    (n : ℕ) → n ≡ amount_fraction_digits → pos 0 -ℤ pos n +ℤ pos amount_fraction_digits ≡ pos 0
no_shift n e = omega int_laws

parse_mantissa-plain :
    (negative : Bool) (whole frac : Bytes)
    → whole ≢ []
    → All IsDigit whole
    → All IsDigit frac
    → length frac ≡ amount_fraction_digits
    → value 0 (whole ++ frac) < 2 ^ 63
    → parse_mantissa negative (whole ++ (b'.' ∷ frac)) (pos 0)
      ≡ ok (
          if negative
          then wrap64 (neg (pos (value 0 (whole ++ frac))))
          else pos (value 0 (whole ++ frac)))
unfolding parse_mantissa
parse_mantissa-plain negative [] frac nonempty dw df len fits = absurd (nonempty refl)
parse_mantissa-plain negative (c ∷ w) frac nonempty dw df len fits =
    let s : Bytes = (c ∷ w) ++ frac in
    let digits : All IsDigit s = All-append IsDigit (c ∷ w) frac dw df in
    rw (cut-point (c ∷ w) frac dw, parse_mantissa)
      (simp (
        is_digits-of_All (c ∷ w) dw,
        is_digits-of_All frac df,
        parse_uint-value s (cons-ne-nil c (w ++ frac)) digits (omega arith),
        no_shift (length frac) len,
        rescale-zero (value 0 s),
        fits_int64 (value 0 s) fits,
      ))

unsigned_magnitude_lem : (v : ℤ) → magnitude v ≤ 2 ^ 63 → unsigned_magnitude v ≡ magnitude v
unfolding unsigned_magnitude
unsigned_magnitude_lem (pos n) h = ground arith
unsigned_magnitude_lem (negsuc n) h = ground arith

-- The text of an amount, split at its point.
text_shape :
    (ds : Bytes)
    → All IsDigit ds
    → let split = length ds - amount_fraction_digits in
      All IsPlain (take split ds ++ (b'.' ∷ drop split ds))
text_shape ds h =
    let split = length ds - amount_fraction_digits in
    All-append IsPlain (take split ds) (b'.' ∷ drop split ds)
      (All-imp IsDigit IsPlain digit_IsPlain (take split ds) (All-take IsDigit split ds h))
      (
        omega arith,
        All-imp IsDigit IsPlain digit_IsPlain (drop split ds) (All-drop IsDigit split ds h),
      )
  where
    digit_IsPlain : (c : ℕ) → IsDigit c → IsPlain c
    digit_IsPlain c d = omega arith

take-ne-nil {ℓ} : {A : Type ℓ} (n : ℕ) (xs : List A) → 0 < n → n ≤ length xs → take n xs ≢ []
take-ne-nil zero xs h k = absurd (omega arith)
take-ne-nil (suc n) [] h k = absurd (omega arith)
take-ne-nil (suc n) (x ∷ xs) h k = cons-ne-nil x (take n xs)

-- Reading an unsigned text of enough digits.
parse_mantissa-digits :
    (negative : Bool) (ds : Bytes)
    → All IsDigit ds
    → amount_fraction_digits < length ds
    → value 0 ds < 2 ^ 63
    → let split = length ds - amount_fraction_digits in
      parse_mantissa negative (take split ds ++ (b'.' ∷ drop split ds)) (pos 0)
      ≡ ok (if negative then wrap64 (neg (pos (value 0 ds))) else pos (value 0 ds))
parse_mantissa-digits negative ds h long fits =
    let split = length ds - amount_fraction_digits in
    parse_mantissa-plain negative (take split ds) (drop split ds)
      (take-ne-nil split ds (omega arith) (omega arith)) (All-take IsDigit split ds h)
      (All-drop IsDigit split ds h) (omega (arith, length-drop split ds)) (rw take-append-drop fits)
    ∙ rw take-append-drop

abbrev text : Bytes → Bytes
text ds = let split = length ds - amount_fraction_digits in take split ds ++ (b'.' ∷ drop split ds)

has_point : (s t : Bytes) → is_empty (s ++ (b'.' ∷ t)) ≡ false
has_point [] t = refl
has_point (c ∷ s) t = refl

module _ (ds : Bytes) (digits : All IsDigit ds) (long : amount_fraction_digits < length ds)
    (fits : value 0 ds < 2 ^ 63) where
  text_nonempty : is_empty (text ds) ≡ false
  text_nonempty =
      has_point (take (length ds - amount_fraction_digits) ds)
        (drop (length ds - amount_fraction_digits) ds)

  parse_amount-text : parse_amount (text ds) ≡ ok (pos (value 0 ds))
  unfolding parse_amount
  parse_amount-text =
      rw (text_nonempty, parse_amount)
        (rw (split_sign-plain (text ds) (text_shape ds digits)) (
          rw (text_nonempty) (
            rw (split_exponent-plain (text ds) (text_shape ds digits))
              (parse_mantissa-digits false ds digits long fits))))

  parse_amount-minus : parse_amount (b'-' ∷ text ds) ≡ ok (wrap64 (neg (pos (value 0 ds))))
  unfolding parse_amount
  parse_amount-minus = rw (text_nonempty) (
      rw (split_exponent-plain (text ds) (text_shape ds digits))
        (parse_mantissa-digits true ds digits long fits))

-- The digits that FormatAmount splits at the point.
amount_digits : ℤ → Bytes
amount_digits v = pad_digits (format_uint (unsigned_magnitude v))

amount_digits-IsDigit : (v : ℤ) → All IsDigit (amount_digits v)
unfolding amount_digits
amount_digits-IsDigit v = pad_digits-IsDigit _ (format_uint-IsDigit (unsigned_magnitude v))

amount_digits_long : (v : ℤ) → amount_fraction_digits < length (amount_digits v)
unfolding amount_digits
amount_digits_long v = pad_digits_long (format_uint (unsigned_magnitude v))

value-amount_digits : (v : ℤ) → magnitude v < 2 ^ 63 → value 0 (amount_digits v) ≡ magnitude v
unfolding amount_digits
value-amount_digits v h =
    let m : unsigned_magnitude v ≡ magnitude v = unsigned_magnitude_lem v (omega arith) in
    rw (value-pad_digits, m) (value-format_uint (magnitude v) (omega arith))

signed_back : (n : ℕ) → n < 2 ^ 63 → wrap64 (neg (pos (suc n))) ≡ negsuc n
unfolding wrap64 neg
signed_back n h = ground arith

not_negative : (n : ℕ) → ltb_ℤ (pos n) (pos 0) ≡ false
not_negative n = ground arith

is_below_zero : (n : ℕ) → ltb_ℤ (negsuc n) (pos 0) ≡ true
is_below_zero n = ground arith

-- ParseAmount reads the text that FormatAmount prints for an int64 back to the same int64, for every
-- int64 but the least.
pub parse_amount-format_amount :
    (v : ℤ) → magnitude v < 2 ^ 63 → parse_amount (format_amount v) ≡ ok v
unfolding format_amount amount_digits
parse_amount-format_amount (pos n) h =
    let v = pos n in
    let e = value-amount_digits v h in
    rw (not_negative n) (
      parse_amount-text (amount_digits v) (amount_digits-IsDigit v) (amount_digits_long v) (rw e h)
      ∙ rw e)
parse_amount-format_amount (negsuc n) h =
    let v = negsuc n in
    let e = value-amount_digits v h in
    rw (is_below_zero n) (
      parse_amount-minus (amount_digits v) (amount_digits-IsDigit v) (amount_digits_long v) (rw e h)
      ∙ rw e (ap ok (signed_back n (omega arith))))

-- The least int64 is printed, and ParseAmount refuses the text that FormatAmount prints for it.
format_amount-min_refused : parse_amount (format_amount (negsuc (2 ^ 63 - 1))) ≡ err out_of_range
unfolding format_amount unsigned_magnitude format_uint pad_digits parse_amount split_exponent
    parse_mantissa cut is_digits parse_uint ◌+ℤ◌ ◌-ℤ◌ wrap64 rescale neg
format_amount-min_refused = refl
