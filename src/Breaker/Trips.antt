-- ===== src/Breaker/Trips.antt =====
-- When the breaker trips (internal/corebreaker/corebreaker.go, Record).
use go_transaction_control_p.Prelude.Int.{ℤ}
use go_transaction_control_p.Prelude.{ok, ◌≡◌, ◌^◌, [], ◌∷◌, ◌<◌, arith, Bool, List}
use go_transaction_control_p.Breaker.{
  closed, record_outcome, new, force_open, allow, Machine, Config,
}

-- What holds of a machine between two calls.
pub record IsValid (m : Machine) : Type 0 where
  pub positive : 0 < m.config.failure_threshold
  pub word : m.config.failure_threshold < 2 ^ 32
  pub counted : m.state ≡ closed → m.consecutive_failures < m.config.failure_threshold

pub new-IsValid :
    (config : Config) (m : Machine)
    → config.failure_threshold < 2 ^ 32
    → new config ≡ ok m
    → IsValid m
unfolding new
new-IsValid config m h e = ground arith

allow-IsValid : (now : ℤ) (m : Machine) → IsValid m → IsValid (allow now m).0
unfolding allow
allow-IsValid now m v = ground arith

record_outcome-IsValid :
    (now : ℤ) (failed : Bool) (m : Machine) → IsValid m → IsValid (record_outcome now failed m)
unfolding record_outcome
record_outcome-IsValid now failed m v = ground arith

force_open-IsValid : (at : ℤ) (m : Machine) → IsValid m → IsValid (force_open at m)
unfolding force_open
force_open-IsValid at m v = ground arith

-- A call on the machine, with its clock reading.
pub data Call : Type 0 where
  asks : ℤ → Call
  reports : ℤ → Bool → Call
  forces : ℤ → Call

abbrev pub perform : Call → Machine → Machine
perform (asks now) m = (allow now m).0
perform (reports now failed) m = record_outcome now failed m
perform (forces at) m = force_open at m

abbrev pub performs : List Call → Machine → Machine
performs [] m = m
performs (c ∷ cs) m = performs cs (perform c m)

perform-IsValid : (c : Call) (m : Machine) → IsValid m → IsValid (perform c m)
perform-IsValid (asks now) m v = allow-IsValid now m v
perform-IsValid (reports now failed) m v = record_outcome-IsValid now failed m v
perform-IsValid (forces at) m v = force_open-IsValid at m v

performs-IsValid : (cs : List Call) (m : Machine) → IsValid m → IsValid (performs cs m)
performs-IsValid [] m v = v
performs-IsValid (c ∷ cs) m v = performs-IsValid cs (perform c m) (perform-IsValid c m v)

-- After any calls in any order on a machine that New built, a closed machine has counted fewer
-- consecutive failures than its threshold.
pub new-performs-IsValid :
    (config : Config) (m : Machine) (cs : List Call)
    → config.failure_threshold < 2 ^ 32
    → new config ≡ ok m
    → IsValid (performs cs m)
new-performs-IsValid config m cs h e = performs-IsValid cs m (new-IsValid config m h e)
