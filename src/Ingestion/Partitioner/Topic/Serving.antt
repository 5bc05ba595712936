-- ===== src/Ingestion/Partitioner/Topic/Serving.antt =====
-- A topic's partitioner under hot reloads (internal/ingestion/kafka/partitioner.go, Partition).
use mathlib.Core.Path.{subst}
use go_transaction_control_p.Ingestion.Partitioner.Topic.{partition}
use go_transaction_control_p.Prelude.Int.{◌<ℤ◌, eqb_ℤ, eq_of_parts}
use go_transaction_control_p.Ingestion.Partitioner.Layout.{Fits}
use go_transaction_control_p.Ingestion.Partitioner.Assign.{partition_for_total}
use go_transaction_control_p.Prelude.Word.{wrap32-of_InInt32, wrap32}
use go_transaction_control_p.Prelude.Int.{pos_part, pos, ℤ}
use go_transaction_control_p.Ingestion.Partitioner.Table.{new_reservation_table-IsTable, IsTable}
use go_transaction_control_p.Ingestion.Partitioner.Topic.{
  TopicPartitioner, refresh, is_stale, current_table, SharedState,
}
use go_transaction_control_p.Ingestion.Partitioner.Exclusive.{Reaches, here, one_more}
use go_transaction_control_p.Ingestion.Partitioner.{
  partition_for, split_partition_key, TenantPartitionConfig, new_reservation_table,
  ReservationTable,
}
use go_transaction_control_p.Prelude.{
  ◌==◌, ◌∙◌, sym, not, ◌||◌, ap, Bool, ◌-◌, All, arith, Bytes, Bool-cases, ◌^◌, ◌≡◌, ◌<◌, ℕ, Option,
  true, false, some, none, inl, inr, refl,
}

-- A table that a partitioner has built at a version is a valid one; if the version is the shared
-- state's, it is the table of the shared reservations after some records.
abbrev pub Built : SharedState → ℕ → Option ReservationTable → Type 0
Built shared version none = Unit
Built shared version (some table) =
    IsTable table
    × (version ≡ shared.version
        → (n : ℕ) × (table.total_partitions ≡ pos n)
          × Reaches (new_reservation_table shared.reserved shared.default_size (pos n)) table)

abbrev pub IsReady : SharedState → TopicPartitioner → Type 0
IsReady shared part = Built shared part.built_from part.table

-- Reservations and a default size that a topic of `total` partitions can serve.
abbrev pub IsServable : SharedState → ℕ → Type 0
IsServable shared total =
    (1 < total)
    × (total < 2 ^ 31)
    × (pos_part shared.default_size < 2 ^ 31)
    × All (Fits (total - 1)) shared.reserved

first_true : (a b : Bool) → (not a || b) ≡ false → a ≡ true
first_true true b h = refl
first_true false b h = sym h

second_true : (a b : Bool) → (a || not b) ≡ false → b ≡ true
second_true a true h = refl
second_true true false h = sym h
second_true false false h = sym h

new_table_total :
    (reserved : TenantPartitionConfig) (default_size : ℤ) (total : ℕ)
    → 1 < total
    → (new_reservation_table reserved default_size (pos total)).total_partitions ≡ pos total
unfolding new_reservation_table
new_table_total reserved default_size total h = ground arith

module _ (shared : SharedState) (total : ℕ) (servable : IsServable shared total) where
  same_total : wrap32 (pos total) ≡ pos total
  same_total = wrap32-of_InInt32 (pos total) (omega (arith, servable.1))

  -- A valid table of the shared reservations for the topic.
  Serves : ReservationTable → Type 0
  Serves table =
      IsTable table
      × (table.total_partitions ≡ pos total)
      × Reaches (new_reservation_table shared.reserved shared.default_size (pos total)) table

  new_table-Serves :
      Serves (new_reservation_table shared.reserved shared.default_size (wrap32 (pos total)))
  unfolding Serves
  new_table-Serves = rw same_total (
    new_reservation_table-IsTable shared.reserved shared.default_size total servable.0 servable.1
        servable.2 servable.3,
    new_table_total shared.reserved shared.default_size total servable.0,
    here,
  )

  kept_total :
      (part : TopicPartitioner) (table : ReservationTable)
      → is_stale shared part (some table) (pos total) ≡ false
      → (part.built_from ≡ shared.version) × (table.total_partitions ≡ pos total)
  unfolding is_stale
  kept_total part table h = (
    let e : (part.built_from == shared.version) ≡ true =
          first_true (part.built_from == shared.version) _ h in
        ground arith,
    eq_of_parts table.total_partitions (pos total) (
        let e : eqb_ℤ table.total_partitions (pos total) ≡ true =
          ap (eqb_ℤ table.total_partitions) (sym same_total)
          ∙ second_true (not (part.built_from == shared.version)) _ h in
        ground arith),
  )

  current-Serves :
      (part : TopicPartitioner) (built : Option ReservationTable)
      → Built shared part.built_from built
      → is_stale shared part built (pos total) ≡ false
      → Serves (current_table shared built (pos total))
  unfolding current_table is_stale Serves
  current-Serves part none ready h = absurd (let e : true ≡ false = h in cc)
  current-Serves part (some table) (v, follows) h =
      let (current, same) = kept_total part table h in
      let (n, e, path) = follows current in
      let at_total : n ≡ total = ap pos_part (sym e ∙ same) in
      (
        v,
        same,
        subst
            (λ m. Reaches (new_reservation_table shared.reserved shared.default_size (pos m)) table)
            at_total path,
      )

  refresh-Serves :
      (part : TopicPartitioner) → IsReady shared part → Serves (refresh shared part (pos total))
  unfolding refresh
  refresh-Serves part ready = elim (Bool-cases (is_stale shared part part.table (pos total))) [
    | inl h ↦ rw h new_table-Serves
    | inr h ↦ rw h (current-Serves part part.table ready h)
  ]

  -- With reservations that the topic can serve, and whatever valid table the partitioner has built
  -- before, from these reservations or from ones that were replaced since: a record gets the partition
  -- that the table of the current reservations, after some records, gives to the key's tenant and
  -- instrument. It is one of the topic's, there is no panic, and the partitioner is left with the next
  -- such table, ready for the next record.
  pub partition_total :
      (part : TopicPartitioner) (record_key : Bytes)
      → IsReady shared part
      → (table next_table : ReservationTable) × (at : ℕ) × Reaches
          (new_reservation_table shared.reserved shared.default_size (pos total))
          table
        × (partition_for table (split_partition_key record_key).0 (split_partition_key record_key).1
            ≡ some (next_table, pos at))
        × (at < total)
        × (partition shared part record_key (pos total)
            ≡ some (record { built_from = shared.version; table = some next_table }, pos at))
        × IsReady shared (record { built_from = shared.version; table = some next_table })
  unfolding partition Serves
  partition_total part record_key ready =
      let table = refresh shared part (pos total) in
      let (v, t, path) = refresh-Serves part ready in
      let parts = split_partition_key record_key in
      let (table', at, e, v', l, kept) = partition_for_total table v parts.0 parts.1 in
      (
        table,
        table',
        at,
        path,
        e,
        omega (arith, subst (λ z. pos at <ℤ z) t l),
        rw e refl,
        (v', λ _. (total, kept ∙ t, one_more parts.0 parts.1 path (pos at, e))),
      )
