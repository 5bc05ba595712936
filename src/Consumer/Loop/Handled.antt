-- ===== src/Consumer/Loop/Handled.antt =====
-- No record is dropped (internal/processor/kafka/consumer.go, Run): what an iteration of the loop does
-- to the records that it polled, step by step.
use go_transaction_control_p.Consumer.Loop.Retry.{reconcile_with_retry-Retried, Retried, Tries}
use go_transaction_control_p.Prelude.Int.{ℤ, pos}
use go_transaction_control_p.Ledger.Types.{Transaction}
use go_transaction_control_p.Prelude.{
  arith, Result, ◌∙◌, ◌-◌, sym, suc, false, ◌^◌, ◌+◌, refl, err, ap, ◌<◌, true, some, ◌⊎◌, ◌∷◌, ok,
  none, ◌≡◌, [], Option, Bytes, Bool, ℕ, List,
}
use go_transaction_control_p.Consumer.Records.{dlq_event, ConsumedRecord}
use go_transaction_control_p.Consumer.Loop.{
  handle_payload, reconcile_with_retry, is_error, handle_record, Visit, with_dlq, settle_record,
  FetchedPartition, publish_to_dlq, produce_dlq, dlq_result, Environment,
}

module _ {W : Type 0} (env : Environment W) where
  -- Each record is reconciled or acknowledged by the dead-letter topic, with its value, its place and
  -- why and after how many attempts it failed.
  pub data Handles (r : ConsumedRecord) : W → W → Type 0 where
    reconciled :
        {w w' : W} (txn : Transaction) (n : ℕ)
        → env.decode r.value ≡ ok txn
        → Tries env txn w n w' none
        → Handles r w w'
    undecodable :
        {w w' : W} (reason payload : Bytes)
        → env.decode r.value ≡ err reason
        → env.marshal (dlq_event r reason (pos 1) (env.now_text w)) ≡ some payload
        → env.produce w (record { topic = env.dlq_topic; key = r.key; value = payload })
          ≡ (w', true)
        → Handles r w w'
    dead_lettered :
        {w mid w' : W} (txn : Transaction) (n : ℕ) (reason payload : Bytes)
        → env.decode r.value ≡ ok txn
        → Tries env txn w n mid (some reason)
        → env.marshal (dlq_event r reason (pos n) (env.now_text mid)) ≡ some payload
        → env.produce mid (record { topic = env.dlq_topic; key = r.key; value = payload })
          ≡ (w', true)
        → Handles r w w'

  -- The records of a partition one after the other.
  pub data HandlesRecords : List ConsumedRecord → W → W → Type 0 where
    no_records : {w : W} → HandlesRecords [] w w
    one_record :
        {r : ConsumedRecord} {records : List ConsumedRecord} {w mid w' : W}
        → Handles r w mid
        → HandlesRecords records mid w'
        → HandlesRecords (r ∷ records) w w'

  -- The partitions one after the other; behind the records of one its lag may be reported.
  pub data HandlesPartitions : List FetchedPartition → W → W → Type 0 where
    no_partitions : {w : W} → HandlesPartitions [] w w
    one_partition :
        {p : FetchedPartition} {partitions : List FetchedPartition} {w mid seen w' : W}
        → HandlesRecords p.records w mid
        → (seen ≡ mid) ⊎ ((tenant : Bytes) × (lag : ℤ) × (seen ≡ env.observe_lag mid tenant lag))
        → HandlesPartitions partitions seen w'
        → HandlesPartitions (p ∷ partitions) w w'

  dlq_result-inv : (x : W × Bool) (w' : W) → dlq_result env x ≡ (w', none) → x ≡ (w', true)
  unfolding dlq_result
  dlq_result-inv (w, true) w' h = ap (λ p. (p.0, true)) h
  dlq_result-inv (w, false) w' h = cc

  produce_dlq-inv :
      (w w' : W) (r : ConsumedRecord) (m : Option Bytes)
      → produce_dlq env w r m ≡ (w', none)
      → (payload : Bytes) × (m ≡ some payload)
        × (env.produce w (record { topic = env.dlq_topic; key = r.key; value = payload })
            ≡ (w', true))
  unfolding produce_dlq
  produce_dlq-inv w w' r none h = absurd (cc)
  produce_dlq-inv w w' r (some payload) h = (payload, refl, dlq_result-inv _ w' h)

  publish_to_dlq-inv :
      (w w' : W) (r : ConsumedRecord) (reason : Bytes) (attempts : ℤ)
      → publish_to_dlq env w r reason attempts ≡ (w', none)
      → (payload : Bytes) × (env.marshal (dlq_event r reason attempts (env.now_text w))
          ≡ some payload)
        × (env.produce w (record { topic = env.dlq_topic; key = r.key; value = payload })
            ≡ (w', true))
  unfolding publish_to_dlq
  publish_to_dlq-inv w w' r reason attempts h =
      produce_dlq-inv w w' r (env.marshal (dlq_event r reason attempts (env.now_text w))) h

  dead_letter :
      (r : ConsumedRecord) (txn : Transaction) (w mid w' : W) (m : ℕ) (reason : Bytes)
      (attempts : ℤ)
      → env.decode r.value ≡ ok txn
      → Tries env txn w m mid (some reason)
      → attempts ≡ pos (0 + m)
      → publish_to_dlq env mid r reason attempts ≡ (w', none)
      → Handles r w w'
  dead_letter r txn w mid w' m reason attempts d tries a h =
      let (payload, e, p) =
        publish_to_dlq-inv mid w' r reason (pos m)
          (let e : attempts ≡ pos m = a ∙ ap pos {y = m} (omega arith) in rw (sym e) h) in
      dead_lettered txn m reason payload d tries e p

  module _ (n : ℕ) where
    settle_record-Handles :
        (v : Visit W) (r : ConsumedRecord) (txn : Transaction) (w : W) (x : W × ℤ × Option Bytes)
        → env.decode r.value ≡ ok txn
        → Retried env txn (suc n) 0 w x
        → (settle_record env v r x).dlq_error ≡ none
        → Handles r w (settle_record env v r x).world
    unfolding settle_record with_dlq
    settle_record-Handles v r txn w (w', a, none) d (m, tries, _, _, _) h = reconciled txn m d tries
    settle_record-Handles v r txn w (mid, a, some reason) d (m, tries, e, _, _) h =
        dead_letter r txn w mid (publish_to_dlq env mid r reason a).0 m reason a d tries e
          (λ i. ((publish_to_dlq env mid r reason a).0, h i))

    module _ (bound : env.max_retries ≡ pos n) (small : n < 2 ^ 63 - 1) where
      handle_payload-Handles :
          (v : Visit W) (r : ConsumedRecord) (decoded : Result Bytes Transaction)
          → env.decode r.value ≡ decoded
          → (handle_payload env v r decoded).dlq_error ≡ none
          → Handles r v.world (handle_payload env v r decoded).world
      unfolding handle_payload with_dlq
      handle_payload-Handles v r (err reason) d h =
          let (payload, e, p) =
            publish_to_dlq-inv v.world (publish_to_dlq env v.world r reason (pos 1)).0 r reason
              (pos 1) (λ i. ((publish_to_dlq env v.world r reason (pos 1)).0, h i)) in
          undecodable reason payload d e p
      handle_payload-Handles v r (ok txn) d h =
          settle_record-Handles (record v { last_tenant = txn.tenant_id }) r txn v.world
            (reconcile_with_retry env v.world txn) d
            (reconcile_with_retry-Retried env n v.world txn bound small) h

      pub handle_record-Handles :
          (v : Visit W) (r : ConsumedRecord)
          → v.dlq_error ≡ none
          → (handle_record env v r).dlq_error ≡ none
          → Handles r v.world (handle_record env v r).world
      unfolding handle_record
      handle_record-Handles v r e h =
          let calm : is_error v.dlq_error ≡ false = rw e refl in
          let started : Visit W = record v { saw_record = true; last_offset = r.offset } in
          let opened : handle_record env v r ≡ handle_payload env started r (env.decode r.value) =
            rw calm refl in
          rw opened (
            handle_payload-Handles started r (env.decode r.value) refl
              (ap (λ x. x.dlq_error) (sym opened) ∙ h))
