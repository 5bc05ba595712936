-- ===== src/Consumer/Loop.antt =====
-- internal/processor/kafka/consumer.go: the consumer's loop. What surrounds it is a world `W` with
-- the operations of an Environment: the reconciler, the Kafka client, the context, the metrics, the
-- clock. An error is its text, `none` is nil.
pub mod Retry
pub mod Handled
pub mod Iteration
use go_transaction_control_p.Ingestion.Publisher.{ProducedRecord}
use go_transaction_control_p.Prelude.Word.{wrap32, wrap64}
use go_transaction_control_p.Prelude.Int.{◌-ℤ◌, ◌+ℤ◌, pos_part, pos, ℤ}
use go_transaction_control_p.Prelude.{
  ok, zero, err, [], false, true, eq_bytes, if◌then◌else◌, ◌∷◌, suc, some, none, Result, ℕ, Option,
  List, Bytes, Bool,
}
use go_transaction_control_p.Ledger.Types.{Transaction}
use go_transaction_control_p.Consumer.Records.{DlqEvent, dlq_event, ConsumedRecord}

pub data RunError : Type 0 where
  fetch_failed : Bytes → RunError
  dlq_marshal_failed dlq_produce_failed : RunError

-- One partition of a poll: its high watermark and records.
pub record FetchedPartition : Type 0 where
  pub high_watermark : ℤ
  pub records : List ConsumedRecord

pub record Fetches : Type 0 where
  pub errors : List Bytes
  pub partitions : List FetchedPartition

pub record Environment (W : Type 0) : Type 0 where
  pub decode : Bytes → Result Bytes Transaction
  pub reconcile : W → Transaction → W × Option Bytes
  pub cancelled : W → Bool
  pub now_text : W → Bytes
  pub marshal : DlqEvent → Option Bytes
  pub produce : W → ProducedRecord → W × Bool
  pub poll : W → W × Fetches
  pub observe_lag : W → Bytes → ℤ → W
  pub observe_active : W → List (Bytes × ℤ) → W
  pub dlq_topic : Bytes
  pub max_retries : ℤ

-- `activePartitionsByTenant[tenant]++`.
unfoldable pub count_partition : Bytes → List (Bytes × ℤ) → List (Bytes × ℤ)
count_partition tenant [] = (tenant, pos 1) ∷ []
count_partition tenant ((k, n) ∷ counts) =
    let rest = count_partition tenant counts in
    if eq_bytes k tenant then (k, wrap32 (n +ℤ pos 1)) ∷ counts else (k, n) ∷ rest

abbrev pub is_error : Option RunError → Bool
is_error none = false
is_error (some e) = true

-- The variables of the callbacks of one partition, with the world.
pub record Visit (W : Type 0) : Type 0 where
  pub world : W
  pub dlq_error : Option RunError
  pub last_tenant : Bytes
  pub last_offset : ℤ
  pub saw_record : Bool

abbrev pub start_visit : {W : Type 0} → W → Visit W
start_visit w = record {
  world = w;
  dlq_error = none;
  last_tenant = [];
  last_offset = pos 0;
  saw_record = false;
}

-- The variables of one poll, with the world.
pub record Pass (W : Type 0) : Type 0 where
  pub world : W
  pub dlq_error : Option RunError
  pub active : List (Bytes × ℤ)

-- How an iteration of the loop ends: the loop goes on, or Run returns.
pub data Round (W : Type 0) : Type 0 where
  continues : W → Round W
  stops : W → Option RunError → Round W

module _ {W : Type 0} (env : Environment W) where
  -- `con.maxRetries + 1`, an int.
  abbrev pub attempt_limit : ℤ
  attempt_limit = wrap64 (env.max_retries +ℤ pos 1)

  -- What follows an attempt: its result, or the attempts that are left.
  after_attempt : ℕ → W × Option Bytes → (W → Bytes → W × ℤ × Option Bytes) → W × ℤ × Option Bytes
  after_attempt attempt (w, none) again = (w, pos attempt, none)
  after_attempt attempt (w, some reason) again =
      if env.cancelled w then (w, pos attempt, some reason) else again w reason

  -- The loop with its rounds left: the number of the next attempt, and the last error so far.
  unfoldable pub retry_loop : ℕ → ℕ → W → Transaction → Option Bytes → W × ℤ × Option Bytes
  unfolding after_attempt
  retry_loop zero attempt w txn last = (w, attempt_limit, last)
  retry_loop (suc rounds) attempt w txn last =
      after_attempt attempt (env.reconcile w txn)
        (λ w' reason. retry_loop rounds (suc attempt) w' txn (some reason))

  unfoldable pub reconcile_with_retry : W → Transaction → W × ℤ × Option Bytes
  unfolding retry_loop
  reconcile_with_retry w txn = retry_loop (pos_part attempt_limit) 1 w txn none

  dlq_result : W × Bool → W × Option RunError
  dlq_result (w, true) = (w, none)
  dlq_result (w, false) = (w, some dlq_produce_failed)

  produce_dlq : W → ConsumedRecord → Option Bytes → W × Option RunError
  unfolding dlq_result
  produce_dlq w r none = (w, some dlq_marshal_failed)
  produce_dlq w r (some payload) =
      dlq_result (env.produce w (record { topic = env.dlq_topic; key = r.key; value = payload }))

  -- publishToDLQ.
  unfoldable pub publish_to_dlq : W → ConsumedRecord → Bytes → ℤ → W × Option RunError
  unfolding produce_dlq
  publish_to_dlq w r reason attempts =
      produce_dlq w r (env.marshal (dlq_event r reason attempts (env.now_text w)))

  with_dlq : Visit W → W × Option RunError → Visit W
  with_dlq v (w, e) = record v { world = w; dlq_error = e }

  -- A record whose transaction was reconciled, or failed to be.
  settle_record : Visit W → ConsumedRecord → W × ℤ × Option Bytes → Visit W
  unfolding with_dlq
  settle_record v r (w, attempts, none) = record v { world = w }
  settle_record v r (w, attempts, some reason) = with_dlq v (publish_to_dlq w r reason attempts)

  handle_payload : Visit W → ConsumedRecord → Result Bytes Transaction → Visit W
  unfolding with_dlq settle_record
  handle_payload v r (err reason) = with_dlq v (publish_to_dlq v.world r reason (pos 1))
  handle_payload v r (ok txn) =
      settle_record (record v { last_tenant = txn.tenant_id }) r (reconcile_with_retry v.world txn)

  -- The callback of EachRecord.
  unfoldable pub handle_record : Visit W → ConsumedRecord → Visit W
  unfolding handle_payload
  handle_record v r =
      if is_error v.dlq_error
      then v
      else handle_payload (record v { saw_record = true; last_offset = r.offset }) r
          (env.decode r.value)

  unfoldable pub handle_records : Visit W → List ConsumedRecord → Visit W
  handle_records v [] = v
  handle_records v (r ∷ records) = handle_records (handle_record v r) records

  -- The lag and the partition's count, once its records are handled.
  report : Pass W → FetchedPartition → Visit W → Pass W
  report pass p v =
      if v.saw_record
      then record {
        world =
            env.observe_lag v.world v.last_tenant
              (wrap64 (wrap64 (p.high_watermark -ℤ pos 1) -ℤ v.last_offset));
        dlq_error = v.dlq_error;
        active = count_partition v.last_tenant pass.active;
      }
      else record { world = v.world; dlq_error = v.dlq_error; active = pass.active }

  -- The callback of EachPartition.
  unfoldable pub handle_partition : Pass W → FetchedPartition → Pass W
  unfolding report
  handle_partition pass p =
      if is_error pass.dlq_error
      then pass
      else report pass p (handle_records (start_visit pass.world) p.records)

  unfoldable pub handle_partitions : Pass W → List FetchedPartition → Pass W
  handle_partitions pass [] = pass
  handle_partitions pass (p ∷ partitions) = handle_partitions (handle_partition pass p) partitions

  stop : W → RunError → Round W
  stop w e = if env.cancelled w then stops w none else stops w (some e)

  finish_round : Option RunError → W → Round W
  unfolding stop
  finish_round none w = continues w
  finish_round (some e) w = stop w e

  after_pass : Pass W → Round W
  unfolding finish_round
  after_pass pass = finish_round pass.dlq_error (env.observe_active pass.world pass.active)

  after_poll : W → List Bytes → List FetchedPartition → Round W
  unfolding stop after_pass
  after_poll w (first ∷ _) partitions = stop w (fetch_failed first)
  after_poll w [] partitions =
      if env.cancelled w
      then stops w none
      else after_pass
          (handle_partitions (record { world = w; dlq_error = none; active = [] }) partitions)

  -- One iteration of Run's loop.
  unfoldable pub poll_round : W → Round W
  unfolding after_poll
  poll_round w = let answer = env.poll w in after_poll answer.0 answer.1.errors answer.1.partitions

  next_round : Round W → (W → Round W) → Round W
  next_round (continues w) again = again w
  next_round (stops w e) again = stops w e

  -- Run, as far as `rounds` iterations take it.
  unfoldable pub run : ℕ → W → Round W
  unfolding next_round
  run zero w = continues w
  run (suc rounds) w = next_round (poll_round w) (λ w'. run rounds w')
