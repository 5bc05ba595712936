-- ===== src/Ingestion/Partitioner/Table.antt =====
-- The reservation table of internal/ingestion/kafka/partitioner.go: its invariant.
use go_transaction_control_p.Ingestion.Partitioner.Ranges.{Stack, Chain}
use go_transaction_control_p.Ingestion.Partitioner.Layout.{lay_out-LaidOut, Fits}
use go_transaction_control_p.Prelude.Word.{wrap32}
use go_transaction_control_p.Prelude.Int.{negsuc, ltb_ℤ, pos, ◌-ℤ◌, pos_part, ℤ}
use go_transaction_control_p.Prelude.{
  refl, zero, suc, inr, inl, arith, [], Bool-cases, ◌∷◌, ◌-◌, ◌+◌, if◌then◌else◌, ◌^◌, All, ◌≤◌,
  ◌≡◌, ◌<◌, List, ℕ, Bytes,
}
use go_transaction_control_p.Ingestion.Partitioner.{
  less_bytes, default_partitions_per_tenant, at_least_one, sort_entries, insert_sorted,
  TenantPartitionConfig, new_reservation_table, explicit_capacity, ReservationTable,
}

-- The explicit ranges fill the partitions below the pool, the pool's ranges fill it from its start.
pub record IsTable (table : ReservationTable) : Type 0 where
  pub total : ℕ
  pub start : ℕ
  pub pool_left : ℕ
  pub next : ℕ
  pub default : ℕ
  pub total_is : table.total_partitions ≡ pos total
  pub start_is : table.pool_start ≡ pos start
  pub size_is : table.pool_size ≡ pos pool_left
  pub next_is : table.pool_next ≡ pos next
  pub default_is : table.default_size ≡ pos default
  pub whole : start + pool_left ≡ total
  pub word : total < 2 ^ 31
  pub some_pool : 0 < pool_left
  pub some_default : 0 < default
  pub default_word : default < 2 ^ 31
  pub next_in : next ≤ total
  pub explicit_chain : Chain 0 start table.explicit
  pub pool_stack : Stack start next table.pool

-- The capacity that the sorted tenants share.
capacity_of :
    (total : ℕ) → 1 < total → total < 2 ^ 31 → explicit_capacity (pos total) ≡ pos (total - 1)
unfolding explicit_capacity wrap32 ◌-ℤ◌
capacity_of total h w = ground arith

pool_size_of :
    (total last : ℕ)
    → last ≤ total
    → total < 2 ^ 31
    → wrap32 (pos total -ℤ pos last) ≡ pos (total - last)
unfolding wrap32 ◌-ℤ◌
pool_size_of total last l w = ground arith

default_pos :
    (default_size : ℤ)
    → pos_part default_size < 2 ^ 31
    → (n : ℕ) × ((if ltb_ℤ default_size (pos 1)
          then default_partitions_per_tenant
          else default_size)
        ≡ pos n)
      × (0 < n)
      × (n < 2 ^ 31)
default_pos (negsuc n) h = (1, ground arith, omega arith, omega arith)
default_pos (pos zero) h = (1, ground arith, omega arith, omega arith)
default_pos (pos (suc n)) h = (suc n, ground arith, omega arith, h)

module _ (P : Bytes × ℤ → Type 0) where
  insert_sorted-All :
      (entry : Bytes × ℤ) (entries : List (Bytes × ℤ))
      → P entry
      → All P entries
      → All P (insert_sorted entry entries)
  unfolding insert_sorted
  insert_sorted-All entry [] p h = (p, tt)
  insert_sorted-All entry (e ∷ entries) p h = elim (Bool-cases (less_bytes entry.0 e.0)) [
    | inl q ↦ rw q (p, h)
    | inr q ↦ rw q (h.0, insert_sorted-All entry entries p h.1)
  ]

  sort_entries-All : (entries : List (Bytes × ℤ)) → All P entries → All P (sort_entries entries)
  unfolding sort_entries
  sort_entries-All [] h = tt
  sort_entries-All (entry ∷ entries) h =
      insert_sorted-All entry (sort_entries entries) h.0 (sort_entries-All entries h.1)

-- A table for at least two partitions is valid, when no reservation is so large that its sum with
-- the number of partitions leaves int32.
pub new_reservation_table-IsTable :
    (reserved : TenantPartitionConfig) (default_size : ℤ) (total : ℕ)
    → 1 < total
    → total < 2 ^ 31
    → pos_part default_size < 2 ^ 31
    → All (Fits (total - 1)) reserved
    → IsTable (new_reservation_table reserved default_size (pos total))
unfolding new_reservation_table Stack
new_reservation_table-IsTable reserved default_size total h w d f =
    let capacity : explicit_capacity (pos total) ≡ pos (total - 1) = capacity_of total h w in
    let laid =
      lay_out-LaidOut (sort_entries reserved) (total - 1) 0 (omega arith) (omega arith)
        (sort_entries-All (Fits (total - 1)) reserved f) in
    let default = default_pos default_size d in
    let e : at_least_one (pos total) ≡ pos total = ground arith in
    rw e (
      rw capacity (
        rw (laid.1) record {
          total = total;
          start = laid.0;
          pool_left = total - laid.0;
          next = laid.0;
          default = default.0;
          total_is = refl;
          start_is = refl;
          size_is = pool_size_of total laid.0 (omega (arith, laid.2)) w;
          next_is = refl;
          default_is = default.1;
          whole = omega (arith, laid.2);
          word = w;
          some_pool = omega (arith, laid.2);
          some_default = default.2;
          default_word = default.3;
          next_in = omega (arith, laid.2);
          explicit_chain = laid.3;
          pool_stack = refl;
        }))
