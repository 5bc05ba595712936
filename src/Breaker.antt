-- ===== src/Breaker.antt =====
-- internal/corebreaker/corebreaker.go: the closed, open and half-open circuit breaker. A call takes
-- the reading of the machine's clock, in nanoseconds; the mutex makes each call one step.
pub mod Trips
pub mod Runs
pub mod Probe
mod Tests
use go_transaction_control_p.Prelude.Int.{negsuc, leb_ℤ, pos, ltb_ℤ, ◌-ℤ◌, ℤ}
use go_transaction_control_p.Prelude.{
  none, ◌-◌, some, leb, ◌^◌, ◌==◌, ◌&&◌, ◌%◌, ok, if◌then◌else◌, false, fail_if, ◌>>◌, ◌+◌, true,
  codes, Option, ℕ, Result, Bytes, Bool,
}

pub data State : Type 0 where
  closed opened half_open : State

-- State.String, at the three states.
unfoldable pub state_name : State → Bytes
state_name closed = codes "closed"
state_name opened = codes "open"
state_name half_open = codes "half-open"

-- `FailureThreshold` is a uint32, the durations are int64 nanoseconds.
pub record Config : Type 0 where
  pub failure_threshold : ℕ
  pub open_timeout : ℤ
  pub probe_timeout : ℤ

pub data ConfigError : Type 0 where
  no_threshold no_open_timeout negative_probe_timeout : ConfigError

unfoldable pub validate : Config → Result ConfigError (Unit {0})
validate config = do
  fail_if (config.failure_threshold == 0) no_threshold
  fail_if (leb_ℤ config.open_timeout (pos 0)) no_open_timeout
  fail_if (ltb_ℤ config.probe_timeout (pos 0)) negative_probe_timeout

pub record Machine : Type 0 where
  pub config : Config
  pub state : State
  pub consecutive_failures : ℕ
  pub opened_at : ℤ

unfoldable pub new : Config → Result ConfigError Machine
unfolding validate
new config =
    validate config
    >> ok (record { config = config; state = closed; consecutive_failures = 0; opened_at = pos 0 })

-- `time.Time.Sub` saturates at the ends of the int64 range.
abbrev pub time_sub : ℤ → ℤ → ℤ
time_sub now then_at =
    let d = now -ℤ then_at in
    if ltb_ℤ (pos (2 ^ 63 - 1)) d
    then pos (2 ^ 63 - 1)
    else if ltb_ℤ d (negsuc (2 ^ 63 - 1))
    then negsuc (2 ^ 63 - 1)
    else d

-- The answer of Allow: whether the call goes through, and whether it is the probe.
allow_in : State → ℤ → Machine → Machine × (Bool × Bool)
allow_in closed now machine = (machine, (true, false))
allow_in half_open now machine = (machine, (false, false))
allow_in opened now machine =
    if ltb_ℤ (time_sub now machine.opened_at) machine.config.open_timeout
    then (machine, (false, false))
    else (record machine { state = half_open }, (true, true))

unfoldable pub allow : ℤ → Machine → Machine × (Bool × Bool)
unfolding allow_in
allow now machine = allow_in machine.state now machine

-- ProbeContext: the bound that a probe's context gets, if any.
unfoldable pub probe_bound : Machine → Bool → Option ℤ
probe_bound machine is_probe =
    if is_probe && ltb_ℤ (pos 0) machine.config.probe_timeout
    then some machine.config.probe_timeout
    else none

abbrev trip : ℤ → Machine → Machine
trip now machine = record machine { state = opened; opened_at = now; consecutive_failures = 0 }

-- Record, at each state and outcome; a call's outcome is whether its error is not nil.
record_in : State → Bool → ℤ → Machine → Machine
record_in half_open true now machine = trip now machine
record_in half_open false now machine = record machine { state = closed; consecutive_failures = 0 }
record_in closed true now machine =
    let failures = (machine.consecutive_failures + 1) % 2 ^ 32 in
    if leb machine.config.failure_threshold failures
    then trip now machine
    else record machine { consecutive_failures = failures }
record_in closed false now machine = record machine { consecutive_failures = 0 }
record_in opened failed now machine = machine

unfoldable pub record_outcome : ℤ → Bool → Machine → Machine
unfolding record_in
record_outcome now failed machine = record_in machine.state failed now machine

-- ForceOpen.
unfoldable pub force_open : ℤ → Machine → Machine
force_open opened_at machine = record machine { state = opened; opened_at = opened_at }
