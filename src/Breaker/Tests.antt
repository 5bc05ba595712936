-- ===== src/Breaker/Tests.antt =====
-- Runs of the breaker's state machine (internal/corebreaker/corebreaker.go).
use go_transaction_control_p.Prelude.Int.{ℤ, pos, leb_ℤ, ◌-ℤ◌}
use go_transaction_control_p.Prelude.{
  map, refl, false, [], ◌∷◌, ◌↔◌, true, ok, Bool, ◌≡◌, arith, List,
}
use go_transaction_control_p.Breaker.Trips.{IsValid}
use go_transaction_control_p.Breaker.Runs.{settle_opens_iff, outcome_of, HasRun, settle}
use go_transaction_control_p.Breaker.Probe.{single_probe, ask_all}
use go_transaction_control_p.Breaker.{
  time_sub, validate, opened, closed, record_outcome, new, allow, Machine, Config,
}

abbrev pub two_failures : Config
two_failures = record { failure_threshold = 2; open_timeout = pos 10; probe_timeout = pos 3 }

abbrev pub closed_machine : Machine
closed_machine = record {
  config = two_failures;
  state = closed;
  consecutive_failures = 0;
  opened_at = pos 0;
}

new_closed : new two_failures ≡ ok closed_machine
unfolding new validate
new_closed = refl

closed_machine-IsValid : IsValid closed_machine
closed_machine-IsValid = record {
  positive = omega arith;
  word = omega arith;
  counted = λ e. omega arith;
}

abbrev outcomes : List (ℤ × Bool)
outcomes = (pos 1, true) ∷ (pos 2, false) ∷ (pos 3, true) ∷ (pos 4, true) ∷ []

settle_opens_iff_example :
    ((settle outcomes closed_machine).state ≡ opened) ↔ HasRun 2 (map outcome_of outcomes)
settle_opens_iff_example = settle_opens_iff closed_machine outcomes closed_machine-IsValid refl refl

tripped_state : (settle outcomes closed_machine).state ≡ opened
unfolding record_outcome
tripped_state = refl

abbrev opened_machine : Machine
opened_machine = record closed_machine { state = opened; opened_at = pos 4 }

probe_allowed : (allow (pos 20) opened_machine).1 ≡ (true, true)
unfolding allow ◌-ℤ◌
probe_allowed = refl

single_probe_example :
    let asked = ask_all (pos 21 ∷ pos 22 ∷ []) (allow (pos 20) opened_machine).0 in
    let after = record_outcome (pos 23) true asked in
    ((allow (pos 23) asked).1 ≡ (false, false))
    × ((after.state ≡ opened) × (after.consecutive_failures ≡ 0))
single_probe_example =
    single_probe (pos 20) opened_machine (pos 21 ∷ pos 22 ∷ []) (pos 23) true probe_allowed

abbrev failing_machine : Machine
failing_machine = record closed_machine { consecutive_failures = 1 }

failing_machine-IsValid : IsValid failing_machine
failing_machine-IsValid = record {
  positive = omega arith;
  word = omega arith;
  counted = λ e. omega arith;
}

due : leb_ℤ (pos 10) (time_sub (pos 20) (pos 5)) ≡ true
unfolding ◌-ℤ◌
due = refl
