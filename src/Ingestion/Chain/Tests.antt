-- ===== src/Ingestion/Chain/Tests.antt =====
-- Runs of the chain of publishers (internal/ingestion).
use go_transaction_control_p.Ingestion.Backpressure.{take_slot}
use go_transaction_control_p.Prelude.Int.{◌-ℤ◌, ℤ, pos}
use go_transaction_control_p.Ingestion.Publisher.{
  to_wire, produce_payload, publish, ProducedRecord, WireEvent,
}
use go_transaction_control_p.Ingestion.Events.{Event}
use go_transaction_control_p.Ingestion.Chain.Accounted.{chain_publish-Accounted, Accounted}
use go_transaction_control_p.Ingestion.Chain.{
  publish_failed, refresh_gauge, observe, innermost_answer, is_failure, observe_answer,
  record_answer, release_answer, with_slot, innermost_publish, breaker_publish, limiter_publish,
  instrumented_publish, chain_publish, Shared,
}
use go_transaction_control_p.Breaker.{record_outcome, allow, opened}
use go_transaction_control_p.Prelude.{
  ◌≡◌, ◌+◌, Bool, arith, ℕ, codes, Bytes, Option, false, err, some, [], ◌∷◌, refl,
}

abbrev order_event : Event
order_event = record {
  event_id = codes "e";
  tenant_id = codes "acme";
  schema_version = pos 1;
  instrument = codes "BTC";
  side = codes "BUY";
  quantity = pos 1;
  price = pos 1;
  currency = codes "USD";
  occurred_at = pos 7;
}

abbrev event_id_json : WireEvent → Option Bytes
event_id_json wire = some wire.event_id

-- A producer that always fails, in a second.
abbrev fail_record : Option ℤ → ℕ → ProducedRecord → ℕ × Bool
fail_record bound n r = (n + 1000000000, false)

-- A breaker that opened a second ago and is due for its probe.
abbrev due : Shared
due = record {
  machine = record {
    config = record { failure_threshold = 2; open_timeout = pos 1000000000; probe_timeout = pos 5 };
    state = opened;
    consecutive_failures = 0;
    opened_at = pos 0;
  };
  limiter = record { capacity = 1; slots = 0 };
  metrics = record {
    successes = 0;
    failures = 0;
    success_latencies = [];
    failure_latencies = [];
    breaker_state = 2;
  };
}

chain_publish-Accounted_example :
    Accounted
      (λ n. pos n)
      (due, 1000000000)
      (chain_publish
        (λ id. id)
        (λ at. [])
        event_id_json
        fail_record
        (codes "events")
        (λ x. x)
        (λ n. pos n)
        (due, 1000000000)
        order_event)
chain_publish-Accounted_example =
    chain_publish-Accounted (λ id. id) (λ at. []) event_id_json fail_record (codes "events")
      (λ n. pos n) (due, 1000000000) order_event (omega arith)

-- The probe fails, is counted and observed, and the breaker opens again at its end.
probe_fails :
    let after =
      chain_publish
        (λ id. id)
        (λ at. [])
        event_id_json
        fail_record
        (codes "events")
        (λ x. x)
        (λ n. pos n)
        (due, 1000000000)
        order_event in
    (after.1 ≡ err publish_failed)
    × (after.0.0.machine.opened_at ≡ pos 2000000000)
    × (after.0.0.metrics.failure_latencies ≡ pos 1000000000 ∷ [])
unfolding chain_publish instrumented_publish limiter_publish breaker_publish innermost_publish
    take_slot with_slot allow record_outcome publish produce_payload to_wire release_answer
    record_answer observe_answer is_failure innermost_answer ◌-ℤ◌ observe refresh_gauge
probe_fails = (refl, refl, refl)
