-- ===== src/Ingestion/Chain/Published.antt =====
-- What a call of the chain of publishers comes to (internal/ingestion).
use go_transaction_control_p.Ingestion.Backpressure.{take_slot, Limiter, BackpressureError}
use go_transaction_control_p.Breaker.{probe_bound, allow}
use go_transaction_control_p.Ingestion.Chain.{
  limiter_publish, observe_answer, release_answer, record_answer, is_failure, instrumented_publish,
  with_slot, innermost_publish, innermost_answer, chain_publish, breaker_publish, Answer, Shared,
}
use go_transaction_control_p.Prelude.Int.{ℤ}
use go_transaction_control_p.Ingestion.Publisher.{
  publish, to_wire, produce_payload, partition_key, WireEvent, ProducedRecord,
}
use go_transaction_control_p.Ledger.Types.{Time}
use go_transaction_control_p.Ingestion.Events.{Event}
use go_transaction_control_p.Prelude.{
  Result, not, ◌⊎◌, Bool-cases, ◌≡◌, Bool, Option, Bytes, true, false, ok, err, none, some, inl,
  inr, refl,
}

-- The record that an event is produced as.
abbrev pub produced_record : Bytes → Event → Bytes → ProducedRecord
produced_record topic event payload = record {
  topic = topic;
  key = partition_key event.tenant_id event.instrument;
  value = payload;
}

module _ {W : Type 0} (uuid_text : Bytes → Bytes) (format_time : Time → Bytes)
    (marshal : WireEvent → Option Bytes) (produce : Option ℤ → W → ProducedRecord → W × Bool)
    (topic : Bytes) (meanwhile : Shared → Shared) where
  -- One record was produced for the event, with the producer's acknowledgement or without.
  abbrev pub Produced : W → Event → W → Bool → Type 0
  Produced w event w' acknowledged =
      (payload : Bytes) × (bound : Option ℤ) × (marshal (to_wire uuid_text format_time event)
        ≡ some payload)
      × (produce bound w (produced_record topic event payload) ≡ (w', acknowledged))

  -- Success is one acknowledged record; a failure is one that was not acknowledged, or none.
  abbrev pub Delivery : W → Event → W → Bool → Type 0
  Delivery w event w' success =
      ((success ≡ true) × Produced w event w' true)
      ⊎ ((success ≡ false) × (Produced w event w' false ⊎ (w' ≡ w)))

  produced_payload-Delivery :
      (bound : Option ℤ) (w : W) (event : Event) (wire : Option Bytes)
      → marshal (to_wire uuid_text format_time event) ≡ wire
      → let x = produce_payload uuid_text format_time marshal (produce bound) topic w event wire in
        Delivery w event x.0 x.1
  unfolding produce_payload
  produced_payload-Delivery bound w event none h = inr (refl, inr refl)
  produced_payload-Delivery bound w event (some payload) h =
      elim (Bool-cases (produce bound w (produced_record topic event payload)).1) [
        | inl e ↦ inl (e, (payload, bound, h, rw (← e) refl))
        | inr e ↦ inr (e, inl (payload, bound, h, rw (← e) refl))
      ]

  -- The same of a publisher's answer.
  abbrev pub Delivers : Shared × W → Event → Answer W → Type 0
  Delivers g event answer = Delivery g.1 event answer.0.1 (not (is_failure answer.1))

  innermost_answer-Delivers :
      (shared : Shared) (w : W) (event : Event) (x : W × Bool)
      → Delivery w event x.0 x.1
      → Delivers
          (shared, w)
          event
          (innermost_answer uuid_text format_time marshal produce topic meanwhile shared x)
  unfolding innermost_answer is_failure
  innermost_answer-Delivers shared w event (w', true) d = d
  innermost_answer-Delivers shared w event (w', false) d = d

  innermost_publish-Delivers :
      (bound : Option ℤ) (g : Shared × W) (event : Event)
      → Delivers g event
          (innermost_publish uuid_text format_time marshal produce topic meanwhile bound g event)
  unfolding innermost_publish publish
  innermost_publish-Delivers bound (shared, w) event =
      innermost_answer-Delivers shared w event
        (publish uuid_text format_time marshal (produce bound) topic w event)
        (produced_payload-Delivery bound w event (marshal (to_wire uuid_text format_time event))
          refl)

  module _ (clock : W → ℤ) where
    breaker_publish-Delivers :
        (next : Option ℤ → Shared × W → Event → Answer W) (g : Shared × W) (event : Event)
        → ((bound : Option ℤ) (s : Shared) → Delivers g event (next bound (s, g.1) event))
        → Delivers g event (breaker_publish clock next g event)
    unfolding breaker_publish record_answer is_failure
    breaker_publish-Delivers next (shared, w) event d =
        let answer = allow (clock w) shared.machine in
        elim (Bool-cases answer.1.0) [
          | inl e ↦
              rw e (d (probe_bound answer.0 answer.1.1) (record shared { machine = answer.0 }))
          | inr e ↦ rw e (inr (refl, inr refl))
        ]

    with_slot-Delivers :
        (next : Shared × W → Event → Answer W) (g : Shared × W) (event : Event)
        (slot : Result BackpressureError Limiter)
        → ((s : Shared) → Delivers g event (next (s, g.1) event))
        → Delivers g event (with_slot clock next g event slot)
    unfolding with_slot release_answer is_failure
    with_slot-Delivers next (shared, w) event (err e) d = inr (refl, inr refl)
    with_slot-Delivers next (shared, w) event (ok limiter) d =
        d (record shared { limiter = limiter })

    pub chain_publish-Delivers :
        (g : Shared × W) (event : Event)
        → Delivers g event
            (chain_publish uuid_text format_time marshal produce topic meanwhile clock g event)
    unfolding chain_publish instrumented_publish observe_answer limiter_publish
    chain_publish-Delivers (shared, w) event =
        let inner = innermost_publish uuid_text format_time marshal produce topic meanwhile in
        with_slot-Delivers (breaker_publish clock inner) (shared, w) event
          (take_slot shared.limiter)
          (λ s.
            breaker_publish-Delivers inner (s, w) event
              (λ bound s'. innermost_publish-Delivers bound (s', w) event))
