-- ===== src/Breaker/Probe.antt =====
-- The half-open state (internal/corebreaker/corebreaker.go, Allow and Record).
use go_transaction_control_p.Breaker.Trips.{IsValid}
use go_transaction_control_p.Prelude.Int.{leb_ℤ, ℤ}
use go_transaction_control_p.Prelude.{
  if◌then◌else◌, ap, suc, refl, false, arith, true, [], ◌≡◌, ◌∷◌, Bool, List,
}
use go_transaction_control_p.Breaker.{
  time_sub, opened, half_open, closed, Machine, record_outcome, allow,
}

-- Calls of Allow, each with its clock.
abbrev pub ask_all : List ℤ → Machine → Machine
ask_all [] m = m
ask_all (now ∷ times) m = ask_all times (allow now m).0

allow_half_open : (now : ℤ) (m : Machine) → m.state ≡ half_open → allow now m ≡ (m, (false, false))
unfolding allow
allow_half_open now m h = ground arith

ask_all-half_open : (times : List ℤ) (m : Machine) → m.state ≡ half_open → ask_all times m ≡ m
ask_all-half_open [] m h = refl
ask_all-half_open (now ∷ times) m h = rw (allow_half_open now m h) (ask_all-half_open times m h)

half_open_after :
    (now : ℤ) (m : Machine) → (allow now m).1 ≡ (true, true) → ((allow now m).0).state ≡ half_open
unfolding allow
half_open_after now m h = ground arith

outcome_settles :
    (later : ℤ) (failed : Bool) (m : Machine)
    → m.state ≡ half_open
    → ((record_outcome later failed m).state ≡ (if failed then opened else closed))
      × ((record_outcome later failed m).consecutive_failures ≡ 0)
unfolding record_outcome
outcome_settles later failed m h = ground arith

-- Once Allow has let a probe through, every further call is refused, however many there are and
-- whenever they come, until an outcome is recorded; that outcome closes the machine, or opens it where
-- it is a failure, with no failure counted.
pub single_probe :
    (now : ℤ) (m : Machine) (times : List ℤ) (later : ℤ) (failed : Bool)
    → (allow now m).1 ≡ (true, true)
    → let asked = ask_all times (allow now m).0 in
      let after = record_outcome later failed asked in
      ((allow later asked).1 ≡ (false, false))
      × ((after.state ≡ (if failed then opened else closed)) × (after.consecutive_failures ≡ 0))
unfolding record_outcome
single_probe now m times later failed h =
    let e = half_open_after now m h in
    rw (ask_all-half_open times (allow now m).0 e) (
      ap (λ p. p.1) (allow_half_open later (allow now m).0 e),
      outcome_settles later failed (allow now m).0 e,
    )

-- A call that was let through while the machine was closed, and that succeeds while a probe is in
-- flight, closes the machine: the next call goes through with the probe still in flight.
pub stale_result_readmits :
    (m : Machine) (failing probing succeeding next : ℤ)
    → IsValid m
    → m.state ≡ closed
    → suc m.consecutive_failures ≡ m.config.failure_threshold
    → leb_ℤ m.config.open_timeout (time_sub probing failing) ≡ true
    → let tripped = record_outcome failing true m in
      let probed = allow probing tripped in
      let recorded = record_outcome succeeding false probed.0 in
      (probed.1 ≡ (true, true)) × ((allow next recorded).1 ≡ (true, false))
unfolding record_outcome allow
stale_result_readmits m failing probing succeeding next v s f t = ground arith
