-- ===== src/Consumer/Loop/Iteration.antt =====
-- One iteration of Run (internal/processor/kafka/consumer.go): all that it polled is handled, or Run
-- returns.
use mathlib.Core.Path.{subst}
use go_transaction_control_p.Consumer.Loop.Handled.{
  handle_record-Handles, one_record, one_partition, no_records, no_partitions, HandlesRecords,
  HandlesPartitions,
}
use go_transaction_control_p.Prelude.Int.{ℤ, pos}
use go_transaction_control_p.Consumer.Records.{ConsumedRecord}
use go_transaction_control_p.Prelude.{
  zero, ap, sym, false, Bool-cases, ◌-◌, inr, ◌∙◌, ◌^◌, inl, arith, [], ◌⊎◌, ◌∷◌, ◌<◌, suc, some,
  refl, Bytes, true, none, List, ◌≡◌, ℕ, Option,
}
use go_transaction_control_p.Consumer.Loop.{
  Round, start_visit, finish_round, report, after_pass, stops, FetchedPartition, is_error,
  continues, Pass, stop, next_round, handle_partition, Visit, RunError, run, poll_round,
  handle_records, handle_record, handle_partitions, after_poll, Environment,
}

module _ {W : Type 0} (env : Environment W) where
  calm_or_error : (e : Option RunError) → (e ≡ none) ⊎ (is_error e ≡ true)
  calm_or_error none = inl refl
  calm_or_error (some e) = inr refl

  no_error : (e : Option RunError) → is_error e ≡ true → ¬ (e ≡ none)
  no_error none h q = cc
  no_error (some e) h q = cc

  handle_record_skips :
      (v : Visit W) (r : ConsumedRecord) → is_error v.dlq_error ≡ true → handle_record env v r ≡ v
  unfolding handle_record
  handle_record_skips v r h = rw h refl

  handle_records_skips :
      (v : Visit W) (records : List ConsumedRecord)
      → is_error v.dlq_error ≡ true
      → handle_records env v records ≡ v
  unfolding handle_records
  handle_records_skips v [] h = refl
  handle_records_skips v (r ∷ records) h =
      rw (handle_record_skips v r h) (handle_records_skips v records h)

  handle_partitions_skips :
      (pass : Pass W) (partitions : List FetchedPartition)
      → is_error pass.dlq_error ≡ true
      → handle_partitions env pass partitions ≡ pass
  unfolding handle_partitions handle_partition
  handle_partitions_skips pass [] h = refl
  handle_partitions_skips pass (p ∷ partitions) h = rw h (handle_partitions_skips pass partitions h)

  module _ (n : ℕ) (bound : env.max_retries ≡ pos n) (small : n < 2 ^ 63 - 1) where
    handle_records-HandlesRecords :
        (v : Visit W) (records : List ConsumedRecord)
        → v.dlq_error ≡ none
        → (handle_records env v records).dlq_error ≡ none
        → HandlesRecords env records v.world (handle_records env v records).world
    unfolding handle_records
    handle_records-HandlesRecords v [] e h = no_records
    handle_records-HandlesRecords v (r ∷ records) e h =
        elim (calm_or_error (handle_record env v r).dlq_error) [
          | inl calm ↦
              one_record (handle_record-Handles env n bound small v r e calm)
                (handle_records-HandlesRecords (handle_record env v r) records calm h)
          | inr failed ↦ absurd (
              no_error (handle_record env v r).dlq_error failed (
                ap (λ x. x.dlq_error)
                  (sym (handle_records_skips (handle_record env v r) records failed))
                ∙ h))
        ]

    visited_lem :
        (pass : Pass W) (p : FetchedPartition)
        → pass.dlq_error ≡ none
        → handle_partition env pass p
          ≡ report env pass p (handle_records env (start_visit pass.world) p.records)
    unfolding handle_partition
    visited_lem pass p e = let calm : is_error pass.dlq_error ≡ false = rw e refl in rw calm refl

    -- The world behind a partition, once its lag is reported.
    report-seen :
        (pass : Pass W) (p : FetchedPartition) (v : Visit W)
        → ((report env pass p v).dlq_error ≡ v.dlq_error)
          × (((report env pass p v).world ≡ v.world)
              ⊎ ((tenant : Bytes) × (lag : ℤ) × ((report env pass p v).world
                    ≡ env.observe_lag v.world tenant lag)))
    unfolding report
    report-seen pass p v = elim (Bool-cases v.saw_record) [
      | inl s ↦ rw s (refl, inr (v.last_tenant, _, refl))
      | inr s ↦ rw s (refl, inl refl)
    ]

    handle_partitions-HandlesPartitions :
        (pass : Pass W) (partitions : List FetchedPartition)
        → pass.dlq_error ≡ none
        → (handle_partitions env pass partitions).dlq_error ≡ none
        → HandlesPartitions env partitions pass.world (handle_partitions env pass partitions).world
    unfolding handle_partitions
    handle_partitions-HandlesPartitions pass [] e h = no_partitions
    handle_partitions-HandlesPartitions pass (p ∷ partitions) e h =
        elim (calm_or_error (handle_partition env pass p).dlq_error) [
          | inl calm ↦
              let v = handle_records env (start_visit pass.world) p.records in
              let (same, seen) = report-seen pass p v in
              let visited : handle_partition env pass p ≡ report env pass p v =
                visited_lem pass p e in
              one_partition
                (handle_records-HandlesRecords (start_visit pass.world) p.records refl
                  (sym same ∙ (ap (λ x. x.dlq_error) (sym visited) ∙ calm)))
                seen
                (subst
                  (λ x.
                    HandlesPartitions env partitions x.world
                      (handle_partitions env (handle_partition env pass p) partitions).world)
                  visited
                  (handle_partitions-HandlesPartitions (handle_partition env pass p) partitions calm
                    h))
          | inr failed ↦ absurd (
              no_error (handle_partition env pass p).dlq_error failed (
                ap (λ x. x.dlq_error)
                  (sym (handle_partitions_skips (handle_partition env pass p) partitions failed))
                ∙ h))
        ]

    after_pass-continues :
        (pass : Pass W) (w' : W)
        → after_pass env pass ≡ continues w'
        → (pass.dlq_error ≡ none) × (w' ≡ env.observe_active pass.world pass.active)
    unfolding after_pass finish_round stop
    after_pass-continues pass w' h = ground arith

    after_poll-continues :
        (w w' : W) (errors : List Bytes) (partitions : List FetchedPartition)
        → after_poll env w errors partitions ≡ continues w'
        → (mid : W) × (active : List (Bytes × ℤ)) × HandlesPartitions env partitions w mid
          × (w' ≡ env.observe_active mid active)
          × (env.cancelled w ≡ false)
    unfolding after_poll stop
    after_poll-continues w w' (first ∷ errors) partitions h = elim (Bool-cases (env.cancelled w)) [
      | inl c ↦ absurd (ground arith)
      | inr c ↦ absurd (ground arith)
    ]
    after_poll-continues w w' [] partitions h = elim (Bool-cases (env.cancelled w)) [
      | inl c ↦ absurd (ground arith)
      | inr c ↦
          let start : Pass W = record { world = w; dlq_error = none; active = [] } in
          let done = handle_partitions env start partitions in
          let shown : after_pass env done ≡ continues w' = ground arith in
          let (calm, e) = after_pass-continues done w' shown in
          (
            done.world,
            done.active,
            handle_partitions-HandlesPartitions start partitions refl calm,
            e,
            c,
          )
    ]

    -- With a retry bound below the largest int64: where an iteration of the loop ends and the
    -- loop goes on, the context was alive after the poll, and every record that was polled was
    -- handled, one after the other: reconciled, by the last of its attempts, or acknowledged by
    -- the dead-letter topic with why and after how many attempts it failed. Besides, only a lag
    -- behind each partition and the active partitions at the end were reported.
    pub poll_round-HandlesPartitions :
        (w w' : W)
        → poll_round env w ≡ continues w'
        → (mid : W) × (active : List (Bytes × ℤ)) × HandlesPartitions env
            (env.poll w).1.partitions
            (env.poll w).0
            mid
          × (w' ≡ env.observe_active mid active)
          × (env.cancelled (env.poll w).0 ≡ false)
    unfolding poll_round
    poll_round-HandlesPartitions w w' h =
        after_poll-continues (env.poll w).0 w' (env.poll w).1.errors (env.poll w).1.partitions h

  after_poll_cancelled :
      (w : W) (errors : List Bytes) (partitions : List FetchedPartition)
      → env.cancelled w ≡ true
      → after_poll env w errors partitions ≡ stops w none
  unfolding after_poll stop
  after_poll_cancelled w [] partitions h = rw h refl
  after_poll_cancelled w (first ∷ errors) partitions h = rw h refl

  poll_round_cancelled :
      (w : W) → env.cancelled (env.poll w).0 ≡ true → poll_round env w ≡ stops (env.poll w).0 none
  unfolding poll_round
  poll_round_cancelled w h =
      after_poll_cancelled (env.poll w).0 (env.poll w).1.errors (env.poll w).1.partitions h

  Round-cases :
      (r : Round W)
      → ((w : W) × (r ≡ continues w)) ⊎ ((w : W) × (e : Option RunError) × (r ≡ stops w e))
  Round-cases (continues w) = inl (w, refl)
  Round-cases (stops w e) = inr (w, e, refl)

  stops_ne : (w w' : W) (e : Option RunError) → ¬ (stops w e ≡ continues w')
  stops_ne w w' e h = cc

  continues-injective : (w w' : W) → continues w ≡ continues w' → w ≡ w'
  continues-injective w w' h = cc

  run_once : (w w' : W) → w ≡ w' → run env 1 w ≡ poll_round env w'
  unfolding run next_round
  run_once w w' e = elim (Round-cases (poll_round env w)) [
    | inl (mid, q) ↦ rw q (sym q ∙ ap (poll_round env) e)
    | inr (mid, x, q) ↦ rw q (sym q ∙ ap (poll_round env) e)
  ]

  run-next :
      (rounds : ℕ) (w w' : W)
      → run env rounds w ≡ continues w'
      → run env (suc rounds) w ≡ poll_round env w'
  unfolding run next_round
  run-next zero w w' h = run_once w w' (continues-injective w w' h)
  run-next (suc rounds) w w' h = elim (Round-cases (poll_round env w)) [
    | inl (mid, e) ↦ rw e (
        run-next rounds mid w'
          (subst (λ r. next_round env r (λ m. run env rounds m) ≡ continues w') e h))
    | inr (mid, q, e) ↦ absurd (
        stops_ne mid w' q
          (subst (λ r. next_round env r (λ m. run env rounds m) ≡ continues w') e h))
  ]

  -- Once Run polls with its context cancelled, it returns without an error and without having
  -- handled a record of that poll, however many iterations went before.
  pub run_stops :
      (rounds : ℕ) (w w' : W)
      → run env rounds w ≡ continues w'
      → env.cancelled (env.poll w').0 ≡ true
      → run env (suc rounds) w ≡ stops (env.poll w').0 none
  run_stops rounds w w' h c = run-next rounds w w' h ∙ poll_round_cancelled w' c
