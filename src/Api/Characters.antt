-- ===== src/Api/Characters.antt =====
-- The characters of valid identifiers (internal/api/transaction_handler.go, isValidTenantID,
-- isValidInstrument and isValidCurrencyCode).
use go_transaction_control_p.Api.Requests.{
  tenant_char, instrument_char, currency_char, is_valid_tenant_id, is_valid_instrument,
  is_valid_currency_code, every,
}
use go_transaction_control_p.Prelude.{
  [], ◌∷◌, refl, arith, false, All, true, ◌≡◌, Bytes, ◌&&◌, ℕ, Bool,
}

and_true : (a b : Bool) → (a && b) ≡ true → (a ≡ true) × (b ≡ true)
and_true true b h = (refl, h)
and_true false b h = cc

module _ (P : ℕ → Type 0) where
  every-All :
      (test : ℕ → Bool) (s : Bytes)
      → ((c : ℕ) → test c ≡ true → P c)
      → every test s ≡ true
      → All P s
  unfolding every
  every-All test [] f h = tt
  every-All test (c ∷ s) f h =
      let (here_ok, rest_ok) = and_true (test c) (every test s) h in
      (f c here_ok, every-All test s f rest_ok)

  pub tenant_id-All :
      (s : Bytes) → ((c : ℕ) → tenant_char c ≡ true → P c) → is_valid_tenant_id s ≡ true → All P s
  unfolding is_valid_tenant_id
  tenant_id-All s f h = every-All tenant_char s f (ground arith)

  pub instrument-All :
      (s : Bytes)
      → ((c : ℕ) → instrument_char c ≡ true → P c)
      → is_valid_instrument s ≡ true
      → All P s
  unfolding is_valid_instrument
  instrument-All s f h = every-All instrument_char s f (ground arith)

  pub currency-All :
      (s : Bytes)
      → ((c : ℕ) → currency_char c ≡ true → P c)
      → is_valid_currency_code s ≡ true
      → All P s
  unfolding is_valid_currency_code
  currency-All s f h = every-All currency_char s f (ground arith)
