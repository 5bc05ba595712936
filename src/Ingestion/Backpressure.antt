-- ===== src/Ingestion/Backpressure.antt =====
-- internal/ingestion/backpressure.go: a bounded number of calls in flight. The slots are a buffered
-- channel, of which only the number of values held matters; taking a slot and releasing it are the
-- two steps of a call, and other calls may come between them.
pub mod Bound
mod Tests
use go_transaction_control_p.Prelude.Int.{ltb_ℤ, pos, pos_part, leb_ℤ, ℤ}
use go_transaction_control_p.Prelude.{
  err, ◌+◌, ok, ltb, fail_if, ◌>>◌, if◌then◌else◌, ◌-◌, ℕ, Result,
}

pub data BackpressureError : Type 0 where
  not_positive too_large publish_queue_full : BackpressureError

abbrev pub max_backpressure_in_flight : ℕ
max_backpressure_in_flight = 100000

-- BackpressureConfig's one field is the argument.
unfoldable pub validate_limit : ℤ → Result BackpressureError (Unit {0})
validate_limit max_in_flight = do
  fail_if (leb_ℤ max_in_flight (pos 0)) not_positive
  fail_if (ltb_ℤ (pos max_backpressure_in_flight) max_in_flight) too_large

-- The channel's capacity and the values in it.
pub record Limiter : Type 0 where
  pub capacity : ℕ
  pub slots : ℕ

unfoldable pub new_limiter : ℤ → Result BackpressureError Limiter
unfolding validate_limit
new_limiter max_in_flight =
    validate_limit max_in_flight >> ok (record { capacity = pos_part max_in_flight; slots = 0 })

-- The `select` of Publish: a send that does not block, or the error.
unfoldable pub take_slot : Limiter → Result BackpressureError Limiter
take_slot limiter =
    if ltb limiter.slots limiter.capacity
    then ok (record limiter { slots = limiter.slots + 1 })
    else err publish_queue_full

unfoldable pub release_slot : Limiter → Limiter
release_slot limiter = record limiter { slots = limiter.slots - 1 }
