-- ===== src/Ingestion/Chain/Accounted.antt =====
-- What a call of the chain of publishers leaves of the slots, the breaker and the metrics
-- (internal/ingestion).
use go_transaction_control_p.Ingestion.Events.{Event}
use go_transaction_control_p.Ingestion.Backpressure.{release_slot, take_slot}
use go_transaction_control_p.Ingestion.Publisher.{ProducedRecord, WireEvent}
use go_transaction_control_p.Ledger.Types.{Time}
use go_transaction_control_p.Breaker.{record_outcome, allow, Machine}
use go_transaction_control_p.Prelude.Int.{ℤ}
use go_transaction_control_p.Ingestion.Chain.{
  refresh_gauge, observe, innermost_answer, innermost_publish, record_answer, breaker_publish,
  release_answer, with_slot, limiter_publish, observe_answer, instrumented_publish,
  breaker_state_value, publish_failed, is_failure, chain_publish, queue_full, circuit_open, Answer,
  Shared, Metrics,
}
use go_transaction_control_p.Prelude.{
  arith, ◌≤◌, ◌+◌, ◌⊎◌, not, if◌then◌else◌, ◌≡◌, Option, Bool, Bytes, true, false, ok, err,
}

-- One more failure or success is counted, and the gauge shows the breaker's state.
abbrev pub Counted : Metrics → Metrics → Machine → Bool → Type 0
Counted before after machine success =
    (after.successes ≡ (if success then before.successes + 1 else before.successes))
    × (after.failures ≡ (if success then before.failures else before.failures + 1))
    × (after.breaker_state ≡ breaker_state_value machine.state)

-- The three ways that a call can take, without other calls at the same time.
module _ {W : Type 0} (clock : W → ℤ) where
  -- All slots are held: the breaker is not asked and hears of nothing.
  abbrev pub Shed : Shared × W → Answer W → Type 0
  Shed g answer =
      (g.0.limiter.slots ≡ g.0.limiter.capacity)
      × (answer.1 ≡ err queue_full)
      × (answer.0.0.machine ≡ g.0.machine)
      × (answer.0.1 ≡ g.1)

  -- The breaker refuses the call.
  abbrev pub FailedFast : Shared × W → Answer W → Type 0
  FailedFast g answer =
      ((allow (clock g.1) g.0.machine).1.0 ≡ false)
      × (answer.1 ≡ err circuit_open)
      × (answer.0.0.machine ≡ (allow (clock g.1) g.0.machine).0)
      × (answer.0.1 ≡ g.1)

  -- The call goes through, and its outcome is recorded at the time that it ended.
  abbrev pub WentThrough : Shared × W → Answer W → Type 0
  WentThrough g answer =
      ((allow (clock g.1) g.0.machine).1.0 ≡ true)
      × ((answer.1 ≡ ok tt) ⊎ (answer.1 ≡ err publish_failed))
      × (answer.0.0.machine
          ≡ record_outcome (clock answer.0.1) (is_failure answer.1)
              (allow (clock g.1) g.0.machine).0)

  abbrev pub Accounted : Shared × W → Answer W → Type 0
  Accounted g answer =
      (answer.0.0.limiter ≡ g.0.limiter)
      × Counted g.0.metrics answer.0.0.metrics answer.0.0.machine (not (is_failure answer.1))
      × (Shed g answer ⊎ (FailedFast g answer ⊎ WentThrough g answer))

module _ {W : Type 0} (uuid_text : Bytes → Bytes) (format_time : Time → Bytes)
    (marshal : WireEvent → Option Bytes) (produce : Option ℤ → W → ProducedRecord → W × Bool)
    (topic : Bytes) (clock : W → ℤ) where
  -- When no other call runs at the same time and no more slots are held than there are, a call
  -- returns the slot that it took, counts one success or one failure and sets the gauge to the
  -- breaker's state. It is shed only when all slots are held, which the breaker does not count;
  -- it is failed fast exactly when the breaker refuses it; otherwise the breaker records its outcome.
  pub chain_publish-Accounted :
      (g : Shared × W) (event : Event)
      → g.0.limiter.slots ≤ g.0.limiter.capacity
      → Accounted clock g (
          chain_publish uuid_text format_time marshal produce topic
            (λ shared. shared)
            clock
            g
            event)
  unfolding chain_publish instrumented_publish observe_answer limiter_publish with_slot take_slot
      release_slot release_answer breaker_publish record_answer innermost_publish innermost_answer
      observe refresh_gauge is_failure
  chain_publish-Accounted (shared, w) event h = ground arith
