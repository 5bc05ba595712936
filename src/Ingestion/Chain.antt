-- ===== src/Ingestion/Chain.antt =====
-- internal/ingestion/breaker.go, backpressure.go and metrics.go: the publishers that wrap one another,
-- put together as cmd/ingestion/main.go does it. A publisher runs on what the calls share and on a
-- world of its own; `clock` reads the time in that world. `meanwhile` is what other calls do to the
-- shared part while the innermost publisher runs.
pub mod Published
pub mod Accounted
mod Tests
use go_transaction_control_p.Ingestion.Publisher.{publish, ProducedRecord, WireEvent}
use go_transaction_control_p.Ledger.Types.{Time}
use go_transaction_control_p.Ingestion.Events.{Event}
use go_transaction_control_p.Ingestion.Backpressure.{
  take_slot, BackpressureError, release_slot, Limiter,
}
use go_transaction_control_p.Prelude.Int.{ℤ}
use go_transaction_control_p.Breaker.{
  probe_bound, time_sub, allow, record_outcome, State, Machine, closed, opened, half_open,
}
use go_transaction_control_p.Prelude.{
  not, ◌∷◌, if◌then◌else◌, ◌+◌, Option, List, Bool, ℕ, Result, Bytes, true, false, ok, err,
}

-- ErrCircuitOpen, ErrPublishQueueFull and the errors of the Kafka publisher.
pub data PublishError : Type 0 where
  circuit_open queue_full publish_failed : PublishError

-- Metrics: the counters as the number of calls of Inc, the histograms as the values observed, in
-- nanoseconds, the last one first, and the gauge.
pub record Metrics : Type 0 where
  pub successes : ℕ
  pub failures : ℕ
  pub success_latencies : List ℤ
  pub failure_latencies : List ℤ
  pub breaker_state : ℕ

-- What the calls of one chain of publishers share.
pub record Shared : Type 0 where
  pub machine : Machine
  pub limiter : Limiter
  pub metrics : Metrics

-- breakerStateValue.
unfoldable pub breaker_state_value : State → ℕ
breaker_state_value closed = 0
breaker_state_value opened = 2
breaker_state_value half_open = 1

unfoldable pub is_failure : Result PublishError (Unit {0}) → Bool
is_failure (ok _) = false
is_failure (err e) = true

-- A publisher's answer: what it leaves of the shared part and of the world, and its error.
abbrev pub Answer : Type 0 → Type 0
Answer W = (Shared × W) × Result PublishError (Unit {0})

module _ {W : Type 0} (clock : W → ℤ) where
  unfoldable pub record_answer : Answer W → Answer W
  unfolding is_failure
  record_answer ((shared, w), result) = (
    (record shared { machine = record_outcome (clock w) (is_failure result) shared.machine }, w),
    result,
  )

  -- CircuitBreaker.Publish; the wrapped publisher takes the bound of a probe.
  unfoldable pub breaker_publish :
      (Option ℤ → Shared × W → Event → Answer W) → Shared × W → Event → Answer W
  breaker_publish next (shared, w) event =
      let (machine, (allowed, is_probe)) = allow (clock w) shared.machine in
      let admitted = record shared { machine = machine } in
      if allowed
      then record_answer (next (probe_bound machine is_probe) (admitted, w) event)
      else ((admitted, w), err circuit_open)

  unfoldable pub release_answer : Answer W → Answer W
  release_answer ((shared, w), result) =
      ((record shared { limiter = release_slot shared.limiter }, w), result)

  unfoldable pub with_slot :
      (Shared × W → Event → Answer W)
      → Shared × W
      → Event
      → Result BackpressureError Limiter
      → Answer W
  with_slot next (shared, w) event (err e) = ((shared, w), err queue_full)
  with_slot next (shared, w) event (ok limiter) =
      release_answer (next (record shared { limiter = limiter }, w) event)

  -- BackpressureLimiter.Publish.
  unfoldable pub limiter_publish : (Shared × W → Event → Answer W) → Shared × W → Event → Answer W
  limiter_publish next (shared, w) event =
      with_slot next (shared, w) event (take_slot shared.limiter)

  unfoldable pub observe : ℤ → Metrics → Result PublishError (Unit {0}) → Metrics
  observe elapsed metrics (err e) = record metrics {
    failures = metrics.failures + 1;
    failure_latencies = elapsed ∷ metrics.failure_latencies;
  }
  observe elapsed metrics (ok _) = record metrics {
    successes = metrics.successes + 1;
    success_latencies = elapsed ∷ metrics.success_latencies;
  }

  -- The refresh of the gauge, if there is a breaker to report.
  unfoldable pub refresh_gauge : Bool → Machine → Metrics → Metrics
  unfolding breaker_state_value
  refresh_gauge reports machine metrics =
      if reports
      then record metrics { breaker_state = breaker_state_value machine.state }
      else metrics

  unfoldable pub observe_answer : Bool → ℤ → Answer W → Answer W
  unfolding observe refresh_gauge
  observe_answer reports start ((shared, w), result) =
      let metrics = observe (time_sub (clock w) start) shared.metrics result in
      ((record shared { metrics = refresh_gauge reports shared.machine metrics }, w), result)

  -- InstrumentedPublisher.Publish; `reports` is whether it was given a breaker.
  unfoldable pub instrumented_publish :
      Bool → (Shared × W → Event → Answer W) → Shared × W → Event → Answer W
  instrumented_publish reports next (shared, w) event =
      observe_answer reports (clock w) (next (shared, w) event)

-- The Kafka publisher below the others, whose production takes the bound of the call's context.
module _ {W : Type 0} (uuid_text : Bytes → Bytes) (format_time : Time → Bytes)
    (marshal : WireEvent → Option Bytes) (produce : Option ℤ → W → ProducedRecord → W × Bool)
    (topic : Bytes) (meanwhile : Shared → Shared) where
  innermost_answer : Shared → W × Bool → Answer W
  innermost_answer shared (w, true) = ((meanwhile shared, w), ok tt)
  innermost_answer shared (w, false) = ((meanwhile shared, w), err publish_failed)

  unfoldable pub innermost_publish : Option ℤ → Shared × W → Event → Answer W
  unfolding innermost_answer
  innermost_publish bound (shared, w) event =
      innermost_answer shared (publish uuid_text format_time marshal (produce bound) topic w event)

  -- The chain that run builds.
  unfoldable pub chain_publish : (W → ℤ) → Shared × W → Event → Answer W
  unfolding innermost_publish breaker_publish limiter_publish instrumented_publish
  chain_publish clock =
      instrumented_publish clock true
        (limiter_publish clock (breaker_publish clock innermost_publish))

  -- The chain as the handlers see it, which tell an error from none.
  unfoldable pub serve_publish : (W → ℤ) → Shared × W → Event → (Shared × W) × Bool
  unfolding chain_publish
  serve_publish clock g event =
      let answer = chain_publish clock g event in (answer.0, not (is_failure answer.1))
