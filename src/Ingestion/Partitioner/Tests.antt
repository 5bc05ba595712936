-- ===== src/Ingestion/Partitioner/Tests.antt =====
-- Runs of the partitioner (internal/ingestion/kafka/partitioner.go).
use go_transaction_control_p.Ingestion.Partitioner.Topic.Serving.{partition_total, IsReady}
use go_transaction_control_p.Ingestion.Partitioner.Topic.{TopicPartitioner, SharedState, partition}
use go_transaction_control_p.Prelude.Word.{wrap32}
use go_transaction_control_p.Prelude.Int.{◌-ℤ◌, ◌+ℤ◌, pos}
use go_transaction_control_p.Prelude.{
  ◌<◌, inr, inl, ap, Bytes, [], ◌∷◌, some, refl, none, arith, ◌≢◌, ◌≡◌, ℕ, eq_bytes, codes,
}
use go_transaction_control_p.Ingestion.Partitioner.Table.{new_reservation_table-IsTable, IsTable}
use go_transaction_control_p.Ingestion.Partitioner.Ranges.{Apart}
use go_transaction_control_p.Ingestion.Partitioner.Exclusive.{
  one_more, empty_pool_panics, Owner-kept, here, exclusive_ranges, Reaches, Owner,
}
use go_transaction_control_p.Ingestion.Partitioner.{
  split_partition_key, hash_bytes, less_bytes, hashed_into, reserved_size, pool_range_size,
  take_range, explicit_capacity, pool_range_for, lay_out, sort_entries, range_for, partition_for,
  new_reservation_table, lookup, TenantPartitionConfig, ReservationTable,
}

abbrev reserved : TenantPartitionConfig
reserved = (codes "b", pos 3) ∷ (codes "a", pos 2) ∷ []

abbrev first_table : ReservationTable
first_table = new_reservation_table reserved (pos 1) (pos 8)

first_table-IsTable : IsTable first_table
first_table-IsTable =
    new_reservation_table-IsTable reserved (pos 1) 8 (omega arith) (omega arith) (omega arith)
      (omega arith, (omega arith, tt))

-- The reservations have been reloaded since the table was built.
abbrev reloaded : SharedState
reloaded = record { version = 2; reserved = reserved; default_size = pos 1 }

abbrev used_before : TopicPartitioner
used_before = record { built_from = 1; table = some first_table }

partition_total_example :
    (table next_table : ReservationTable) × (at : ℕ) × Reaches first_table table
    × (partition_for table
          (split_partition_key (codes "c:EUR")).0
          (split_partition_key (codes "c:EUR")).1
        ≡ some (next_table, pos at))
    × (at < 8)
    × (partition reloaded used_before (codes "c:EUR") (pos 8)
        ≡ some (record { built_from = 2; table = some next_table }, pos at))
    × IsReady reloaded (record { built_from = 2; table = some next_table })
partition_total_example =
    partition_total reloaded 8
      (omega arith, omega arith, omega arith, (omega arith, (omega arith, tt))) used_before
      (codes "c:EUR") (first_table-IsTable, λ e. absurd (omega (arith, e)))

-- The table once tenant c has published.
abbrev second_table : ReservationTable
second_table = record first_table {
  pool_next = pos 6;
  pool = (codes "c", record { start = pos 5; size = pos 1 }) ∷ [];
}

served : partition_for first_table (codes "c") (codes "EUR") ≡ some (second_table, pos 5)
unfolding partition_for range_for pool_range_for take_range pool_range_size new_reservation_table
    sort_entries lay_out lookup hashed_into explicit_capacity reserved_size wrap32 ◌+ℤ◌ ◌-ℤ◌
    eq_bytes less_bytes hash_bytes
served = refl

reached : Reaches first_table second_table
reached = one_more (codes "c") (codes "EUR") here (pos 5, served)

a_owns : Owner first_table (codes "a") (record { start = pos 0; size = pos 2 })
unfolding new_reservation_table sort_entries lay_out lookup explicit_capacity reserved_size wrap32
    ◌+ℤ◌ ◌-ℤ◌ eq_bytes less_bytes
a_owns = inl refl

c_owns : Owner second_table (codes "c") (record { start = pos 5; size = pos 1 })
unfolding lookup eq_bytes
c_owns = inr refl

a_still_owns : Owner second_table (codes "a") (record { start = pos 0; size = pos 2 })
a_still_owns =
    Owner-kept first_table second_table (codes "a") (record { start = pos 0; size = pos 2 }) reached
      a_owns

abbrev first_byte : Bytes → ℕ
first_byte [] = 0
first_byte (b ∷ bytes) = b

a_not_c : codes "a" ≢ codes "c"
a_not_c e = absurd (omega (arith, ap first_byte e))

exclusive_ranges_example :
    Apart (record { start = pos 0; size = pos 2 }) (record { start = pos 5; size = pos 1 })
exclusive_ranges_example =
    exclusive_ranges reserved (pos 1) 8 second_table (codes "a") (codes "c")
      (record { start = pos 0; size = pos 2 }) (record { start = pos 5; size = pos 1 })
      (omega arith) (omega arith) (omega arith) (omega arith, (omega arith, tt)) reached a_not_c
      a_still_owns c_owns

-- One partition, which a reservation takes.
abbrev single_table : ReservationTable
single_table = new_reservation_table ((codes "a", pos 1) ∷ []) (pos 1) (pos 1)

single_shape :
    (lookup single_table.explicit (codes "c") ≡ none)
    × (single_table.pool_start ≡ pos 1)
    × (single_table.pool_size ≡ pos 0)
    × (single_table.pool_next ≡ pos 1)
unfolding new_reservation_table sort_entries lay_out lookup explicit_capacity reserved_size wrap32
    ◌+ℤ◌ ◌-ℤ◌ eq_bytes less_bytes
single_shape = (refl, refl, refl, refl)

no_pool : lookup single_table.pool (codes "c") ≡ none
unfolding lookup new_reservation_table
no_pool = refl

small_default : single_table.default_size ≡ pos 1
unfolding new_reservation_table
small_default = refl

empty_pool_panics_example : partition_for single_table (codes "c") (codes "EUR") ≡ none
empty_pool_panics_example =
    empty_pool_panics single_table (codes "c") (codes "EUR") 1 1 single_shape.0 no_pool
      single_shape.1 single_shape.2 single_shape.3 small_default (omega arith) (omega arith)
