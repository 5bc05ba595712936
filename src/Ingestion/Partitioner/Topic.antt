-- ===== src/Ingestion/Partitioner/Topic.antt =====
-- internal/ingestion/kafka/partitioner.go, tenantTopicPartitioner, and reload.go, its hot reload. The
-- state behind the shared pointer has a version, which stands for the pointer: each store has a new
-- one. The counters of metrics are left out but for the failed reloads.
pub mod Serving
use go_transaction_control_p.Prelude.Word.{wrap32}
use go_transaction_control_p.Prelude.Int.{eqb_ℤ, pos, ltb_ℤ, ℤ}
use go_transaction_control_p.Ingestion.Partitioner.{
  partition_for, new_reservation_table, split_partition_key, ReservationTable,
  TenantPartitionConfig,
}
use go_transaction_control_p.Prelude.{
  ◌||◌, ◌==◌, not, fail_if, ◌>>◌, ◌>>=◌, if◌then◌else◌, Bool, suc, Result, ℕ, Option, List, Bytes,
  true, false, some, none, ok, err, [], ◌∷◌,
}

pub record SharedState : Type 0 where
  pub version : ℕ
  pub reserved : TenantPartitionConfig
  pub default_size : ℤ

-- The table that a topic's partitioner has built, with the version that it was built from.
pub record TopicPartitioner : Type 0 where
  pub built_from : ℕ
  pub table : Option ReservationTable

-- ForTopic.
abbrev pub for_topic : TopicPartitioner
for_topic = record { built_from = 0; table = none }

-- updateReservations.
unfoldable pub update_reservations : SharedState → TenantPartitionConfig → ℤ → SharedState
update_reservations shared reserved default_size = record {
  version = suc shared.version;
  reserved = reserved;
  default_size = default_size;
}

-- `part.table == nil || part.state != currentState || ...`.
unfoldable pub is_stale : SharedState → TopicPartitioner → Option ReservationTable → ℤ → Bool
is_stale shared part none total = true
is_stale shared part (some table) total =
    not (part.built_from == shared.version) || not (eqb_ℤ table.total_partitions (wrap32 total))

current_table : SharedState → Option ReservationTable → ℤ → ReservationTable
current_table shared none total =
    new_reservation_table shared.reserved shared.default_size (wrap32 total)
current_table shared (some table) total = table

unfoldable pub refresh : SharedState → TopicPartitioner → ℤ → ReservationTable
unfolding is_stale current_table
refresh shared part total =
    if is_stale shared part part.table total
    then new_reservation_table shared.reserved shared.default_size (wrap32 total)
    else current_table shared part.table total

placed_at : SharedState → Option (ReservationTable × ℤ) → Option (TopicPartitioner × ℤ)
placed_at shared none = none
placed_at shared (some (table, at)) =
    some (record { built_from = shared.version; table = some table }, at)

-- Partition, for a record's key; `none` where a division by 0 panics.
unfoldable pub partition :
    SharedState → TopicPartitioner → Bytes → ℤ → Option (TopicPartitioner × ℤ)
unfolding refresh placed_at
partition shared part record_key total =
    let parts = split_partition_key record_key in
    placed_at shared (partition_for (refresh shared part total) parts.0 parts.1)

pub data SourceError : Type 0 where
  unreadable malformed bad_count : SourceError

-- The loop of Load over the entries, of which it keeps the counts.
unfoldable pub reserved_counts : List (Bytes × ℤ) → Result SourceError TenantPartitionConfig
reserved_counts [] = ok []
reserved_counts ((tenant, count) ∷ entries) = do
  fail_if (ltb_ℤ count (pos 1)) bad_count
  rest ← reserved_counts entries
  ok ((tenant, count) ∷ rest)

-- The reloader's variables: the shared state and the count of failed reloads.
reload_with : ℤ → SharedState × ℕ → Result SourceError TenantPartitionConfig → SharedState × ℕ
unfolding update_reservations
reload_with default_size (shared, errors) (err e) = (shared, suc errors)
reload_with default_size (shared, errors) (ok reserved) =
    (update_reservations shared reserved default_size, errors)

-- reloadOnce, of the entries that were read.
unfoldable pub reload_reservations :
    ℤ → SharedState × ℕ → Result SourceError (List (Bytes × ℤ)) → SharedState × ℕ
unfolding reload_with reserved_counts
reload_reservations default_size state read =
    reload_with default_size state (read >>= reserved_counts)
