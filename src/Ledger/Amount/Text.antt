-- ===== src/Ledger/Amount/Text.antt =====
-- The bytes of a printed amount (internal/ledger/amount.go, FormatAmount).
use go_transaction_control_p.Ledger.Amount.Digits.{format_uint-IsDigit, pad_digits-IsDigit, IsDigit}
use go_transaction_control_p.Prelude.Int.{pos, ltb_ℤ, ℤ}
use go_transaction_control_p.Prelude.{
  inr, inl, Bool-cases, All-drop, All-take, drop, ◌∷◌, take, All-append, ◌-◌, length, arith,
  All-imp, ◌<◌, All, Bytes,
}
use go_transaction_control_p.Ledger.Amount.{
  amount_fraction_digits, unsigned_magnitude, format_uint, pad_digits, format_amount,
}

abbrev pub IsAscii : Bytes → Type 0
IsAscii = All (λ c. c < 128)

digits-IsAscii : (s : Bytes) → All IsDigit s → IsAscii s
digits-IsAscii s h = All-imp IsDigit (λ c. c < 128) (λ c d. omega arith) s h

pub format_amount-IsAscii : (v : ℤ) → IsAscii (format_amount v)
unfolding format_amount
format_amount-IsAscii v =
    let ds = pad_digits (format_uint (unsigned_magnitude v)) in
    let h = digits-IsAscii ds (pad_digits-IsDigit _ (format_uint-IsDigit (unsigned_magnitude v))) in
    let split = length ds - amount_fraction_digits in
    let text =
      All-append (λ c. c < 128) (take split ds) (b'.' ∷ drop split ds)
        (All-take (λ c. c < 128) split ds h) (omega arith, All-drop (λ c. c < 128) split ds h) in
    elim (Bool-cases (ltb_ℤ v (pos 0))) [ inl e ↦ rw e (omega arith, text) | inr e ↦ rw e text ]
