-- ===== src/Consumer/Tests.antt =====
-- Runs of the processor's consumer (internal/processor/kafka), over a world that counts.
mod Wire
mod Reloads
use go_transaction_control_p.Consumer.Lists.{
  parse_partition_list_wraps, parse_partition_list-partition_list_string,
}
use go_transaction_control_p.Operator.PartitionList.{partition_list_string}
use go_transaction_control_p.Ledger.Amount.{format_uint}
use go_transaction_control_p.Consumer.Config.{parse_partition_list}
use go_transaction_control_p.Consumer.Records.{dlq_event}
use go_transaction_control_p.Consumer.Loop.Iteration.{run_stops, poll_round-HandlesPartitions}
use go_transaction_control_p.Consumer.Loop.Handled.{HandlesPartitions}
use go_transaction_control_p.Prelude.Word.{wrap32, wrap64}
use go_transaction_control_p.Prelude.Int.{◌-ℤ◌, ◌+ℤ◌, ℤ, negsuc, pos}
use go_transaction_control_p.Ledger.Types.{Transaction}
use go_transaction_control_p.Consumer.Loop.Retry.{
  reconcile_with_retry_skips, reconcile_with_retry-Retried, Retried,
}
use go_transaction_control_p.Consumer.Loop.{
  count_partition, publish_to_dlq, handle_record, handle_records, stops, handle_partition,
  continues, retry_loop, handle_partitions, run, reconcile_with_retry, poll_round, Fetches,
  Environment,
}
use go_transaction_control_p.Prelude.{
  eq_bytes, ◌-◌, ltb, ◌^◌, leb, if◌then◌else◌, codes, arith, ◌≡◌, ◌+◌, Result, List, ℕ, Bytes, true,
  false, refl, some, none, ok, err, [], ◌∷◌,
}

abbrev trade : Transaction
trade = record {
  id = pos 0;
  event_id = codes "0b6c";
  tenant_id = codes "acme";
  schema_version = pos 1;
  instrument = codes "BRK";
  side = codes "BUY";
  quantity = pos 100000000;
  price = pos 100000000;
  currency = codes "USD";
  occurred_at = pos 1700;
  received_at = pos 0;
}

abbrev decode_trade : Bytes → Result Bytes Transaction
decode_trade [] = err (codes "no payload")
decode_trade (c ∷ s) = ok trade

abbrev polled : Fetches
polled = record {
  errors = [];
  partitions =
      record {
        high_watermark = pos 2;
        records =
            record {
              topic = codes "t";
              partition = pos 0;
              offset = pos 0;
              key = codes "acme:BRK";
              value = codes "x";
            }
            ∷ record { topic = codes "t"; partition = pos 0; offset = pos 1; key = []; value = [] }
            ∷ [];
      }
      ∷ [];
}

-- The world counts the calls; the context ends at the fourth.
abbrev steady : Environment ℕ
steady = record {
  decode = decode_trade;
  reconcile = λ w txn. (w + 1, none);
  cancelled = λ w. leb 4 w;
  now_text = λ w. codes "now";
  marshal = λ e. some e.failure_reason;
  produce = λ w r. (w + 1, true);
  poll = λ w. (w + 1, polled);
  observe_lag = λ w tenant lag. w;
  observe_active = λ w counts. w;
  dlq_topic = codes "dlq";
  max_retries = pos 3;
}

-- The reconciler fails until the world counts to two.
abbrev flaky : Environment ℕ
flaky = record steady {
  reconcile = λ w txn. (w + 1, if ltb w 2 then some (codes "down") else none);
}

abbrev stuck : Environment ℕ
stuck = record steady { max_retries = pos (2 ^ 63 - 1) }

third_attempt : reconcile_with_retry flaky 0 trade ≡ (3, pos 3, none)
unfolding reconcile_with_retry retry_loop wrap64 ◌+ℤ◌
third_attempt = refl

reconcile_with_retry-Retried_example :
    Retried flaky trade 4 0 0 (reconcile_with_retry flaky 0 trade)
reconcile_with_retry-Retried_example =
    reconcile_with_retry-Retried flaky 3 0 trade refl (omega arith)

reconcile_with_retry_skips_example :
    reconcile_with_retry stuck 0 trade ≡ (0, negsuc (2 ^ 63 - 1), none)
reconcile_with_retry_skips_example = reconcile_with_retry_skips stuck 0 trade refl

-- One poll, one reconciled record, one record in the dead-letter topic.
first_round : poll_round steady 0 ≡ continues 3
unfolding poll_round handle_partitions handle_partition handle_records handle_record
    reconcile_with_retry retry_loop publish_to_dlq dlq_event count_partition eq_bytes wrap64 ◌+ℤ◌
    ◌-ℤ◌ wrap32
first_round = refl

poll_round-HandlesPartitions_example :
    (mid : ℕ) × (active : List (Bytes × ℤ)) × HandlesPartitions steady polled.partitions 1 mid
    × (3 ≡ mid)
    × (leb 4 1 ≡ false)
poll_round-HandlesPartitions_example =
    poll_round-HandlesPartitions steady 3 refl (omega arith) 0 3 first_round

second_round : run steady 1 0 ≡ continues 3
unfolding run
second_round = rw first_round refl

run_stops_example : run steady 2 0 ≡ stops 4 none
run_stops_example = run_stops steady 1 0 3 second_round refl

parse_partition_list-partition_list_string_example :
    parse_partition_list (partition_list_string (pos 4) (pos 3)) ≡ ok (pos 4 ∷ pos 5 ∷ pos 6 ∷ [])
parse_partition_list-partition_list_string_example =
    parse_partition_list-partition_list_string 4 3 (omega arith) (omega arith)
