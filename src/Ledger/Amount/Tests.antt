-- ===== src/Ledger/Amount/Tests.antt =====
-- Runs of the amount parser and printer, at inputs of amount_test.go.
use go_transaction_control_p.Prelude.Signs.{signs_differ}
use go_transaction_control_p.Ledger.Amount.RoundTrip.{parse_amount-format_amount}
use go_transaction_control_p.Ledger.Amount.Exact.{mul_amount-exact, div_amount-exact, IsQuotient}
use go_transaction_control_p.Prelude.{◌*◌, arith, ◌≢◌, ◌≡◌, refl, codes, ok, err}
use go_transaction_control_p.Prelude.Int.{pos, negsuc, ◌*ℤ◌, ◌+ℤ◌, ◌-ℤ◌, neg, quo}
use go_transaction_control_p.Prelude.Word.{InInt64, wrap64}
use go_transaction_control_p.Ledger.Amount.{
  split_exponent, parse_mantissa, cut, is_digits, parse_uint, rescale, unsigned_magnitude,
  format_uint, pad_digits, parse_amount, format_amount, mul_amount, div_amount, too_precise,
  exponent_out_of_range,
}

parse_plain : parse_amount (codes "123.45") ≡ ok (pos 12345000000)
unfolding parse_amount split_exponent parse_mantissa cut is_digits parse_uint ◌+ℤ◌ ◌-ℤ◌ wrap64
    rescale neg
parse_plain = refl

parse_scientific : parse_amount (codes "-1.5e3") ≡ ok (negsuc 149999999999)
unfolding parse_amount split_exponent parse_mantissa cut is_digits parse_uint ◌+ℤ◌ ◌-ℤ◌ wrap64
    rescale neg
parse_scientific = refl

parse_fine : parse_amount (codes "0.000000001") ≡ err too_precise
unfolding parse_amount split_exponent parse_mantissa cut is_digits parse_uint ◌+ℤ◌ ◌-ℤ◌ wrap64
    rescale neg
parse_fine = refl

parse_huge : parse_amount (codes "0e9999") ≡ err exponent_out_of_range
unfolding parse_amount split_exponent parse_mantissa cut is_digits parse_uint ◌+ℤ◌ ◌-ℤ◌ wrap64
    rescale neg
parse_huge = refl

format_small : format_amount (negsuc 4) ≡ codes "-0.00000005"
unfolding format_amount unsigned_magnitude format_uint pad_digits
format_small = refl

format_min : format_amount (negsuc 9223372036854775807) ≡ codes "-92233720368.54775808"
unfolding format_amount unsigned_magnitude format_uint pad_digits
format_min = refl

mul_negative : mul_amount (negsuc 149999999) (pos 250000000) ≡ ok (negsuc 374999999)
unfolding mul_amount quo ◌*ℤ◌
mul_negative = refl

parse_amount-format_amount_example : parse_amount (format_amount (negsuc 4)) ≡ ok (negsuc 4)
parse_amount-format_amount_example = parse_amount-format_amount (negsuc 4) (omega arith)

div_third : div_amount (pos 100000000) (pos 300000000) ≡ ok (pos 33333333)
unfolding div_amount quo ◌*ℤ◌
div_third = refl

mul_amount-exact_example :
    InInt64 (negsuc 374999999)
    × IsQuotient
        (signs_differ (negsuc 149999999) (pos 250000000))
        (150000000 * 250000000)
        100000000
        (negsuc 374999999)
mul_amount-exact_example =
    mul_amount-exact (negsuc 149999999) (pos 250000000) (negsuc 374999999) mul_negative

div_amount-exact_example :
    (pos 300000000 ≢ pos 0)
    × InInt64 (pos 33333333)
    × IsQuotient
        (signs_differ (pos 100000000) (pos 300000000))
        (100000000 * 100000000)
        300000000
        (pos 33333333)
div_amount-exact_example = div_amount-exact (pos 100000000) (pos 300000000) (pos 33333333) div_third
