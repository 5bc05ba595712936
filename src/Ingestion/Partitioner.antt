-- ===== src/Ingestion/Partitioner.antt =====
-- internal/ingestion/kafka/partitioner.go: partition ranges reserved for tenants. An int32 is the
-- integer that it stands for and its sums wrap around; metrics are left out.
pub mod Ranges
pub mod Layout
pub mod Table
pub mod Assign
pub mod Exclusive
pub mod Topic
mod Tests
use Prim.Native.Nat.{bit_xor}
use go_transaction_control_p.Prelude.Word.{bits32, wrap32}
use go_transaction_control_p.Prelude.Int.{◌-ℤ◌, leb_ℤ, ◌+ℤ◌, ltb_ℤ, pos, ℤ}
use go_transaction_control_p.Prelude.{
  ◌&&◌, ◌||◌, ltb, ◌^◌, true, map, ◌*◌, ◌%◌, false, eq_bytes, ◌==◌, none, [], ◌∷◌, some,
  if◌then◌else◌, Option, Bool, ℕ, List, Bytes,
}

abbrev pub default_partitions_per_tenant : ℤ
default_partitions_per_tenant = pos 1

-- A TenantPartitionConfig, as the entries of a map: the keys differ.
abbrev pub TenantPartitionConfig : Type 0
TenantPartitionConfig = List (Bytes × ℤ)

colon : ℕ
colon = 58

-- splitPartitionKey.
unfoldable pub split_partition_key : Bytes → Bytes × Bytes
unfolding colon
split_partition_key [] = ([], [])
split_partition_key (c ∷ key) =
    let rest = split_partition_key key in if c == colon then ([], key) else (c ∷ rest.0, rest.1)

pub record PartitionRange : Type 0 where
  pub start : ℤ
  pub size : ℤ

pub record ReservationTable : Type 0 where
  pub total_partitions : ℤ
  pub default_size : ℤ
  pub explicit : List (Bytes × PartitionRange)
  pub pool_start : ℤ
  pub pool_size : ℤ
  pub pool_next : ℤ
  pub pool : List (Bytes × PartitionRange)
  pub dropped_tenants : List Bytes

-- A map read at a key.
unfoldable pub lookup : {A : Type 0} → List (Bytes × A) → Bytes → Option A
lookup [] key = none
lookup ((k, a) ∷ entries) key = if eq_bytes k key then some a else lookup entries key

-- `<` on Go strings.
unfoldable pub less_bytes : Bytes → Bytes → Bool
less_bytes [] [] = false
less_bytes [] (_ ∷ _) = true
less_bytes (_ ∷ _) [] = false
less_bytes (a ∷ s) (b ∷ t) = ltb a b || ((a == b) && less_bytes s t)

insert_sorted : Bytes × ℤ → List (Bytes × ℤ) → List (Bytes × ℤ)
insert_sorted entry [] = entry ∷ []
insert_sorted entry (e ∷ entries) =
    let rest = insert_sorted entry entries in
    if less_bytes entry.0 e.0 then entry ∷ e ∷ entries else e ∷ rest

-- The entries in the order of their keys, as after sort.Strings on the keys.
unfoldable pub sort_entries : List (Bytes × ℤ) → List (Bytes × ℤ)
unfolding insert_sorted
sort_entries [] = []
sort_entries (entry ∷ entries) = insert_sorted entry (sort_entries entries)

-- The size that a reservation gets when `cursor` partitions are taken.
unfoldable pub reserved_size : ℤ → ℤ → ℤ → ℤ
reserved_size capacity cursor asked =
    let size = if ltb_ℤ asked (pos 1) then pos 1 else asked in
    if ltb_ℤ capacity (wrap32 (cursor +ℤ size)) then wrap32 (capacity -ℤ cursor) else size

-- What the loop over the sorted tenants builds: the ranges, the last cursor, the dropped tenants.
pub record RangeLayout : Type 0 where
  pub ranges : List (Bytes × PartitionRange)
  pub cursor : ℤ
  pub dropped : List Bytes

key_of : Bytes × ℤ → Bytes
key_of entry = entry.0

unfoldable pub lay_out : ℤ → ℤ → List (Bytes × ℤ) → RangeLayout
unfolding key_of
lay_out capacity cursor [] = record { ranges = []; cursor = cursor; dropped = [] }
lay_out capacity cursor (entry ∷ entries) =
    let size = reserved_size capacity cursor entry.1 in
    let rest = lay_out capacity (wrap32 (cursor +ℤ size)) entries in
    if leb_ℤ capacity cursor
    then record { ranges = []; cursor = cursor; dropped = map key_of (entry ∷ entries) }
    else record rest { ranges = (entry.0, record { start = cursor; size = size }) ∷ rest.ranges }

-- Explicit reservations leave a partition to the pool, when there is more than one.
unfoldable pub explicit_capacity : ℤ → ℤ
explicit_capacity total = if ltb_ℤ (pos 1) total then wrap32 (total -ℤ pos 1) else total

abbrev pub at_least_one : ℤ → ℤ
at_least_one n = if ltb_ℤ n (pos 1) then pos 1 else n

unfoldable pub new_reservation_table : TenantPartitionConfig → ℤ → ℤ → ReservationTable
new_reservation_table reserved default_size total_partitions =
    let total = at_least_one total_partitions in
    let layout = lay_out (explicit_capacity total) (pos 0) (sort_entries reserved) in
    record {
      total_partitions = total;
      default_size =
          if ltb_ℤ default_size (pos 1) then default_partitions_per_tenant else default_size;
      explicit = layout.ranges;
      pool_start = layout.cursor;
      pool_size = wrap32 (total -ℤ layout.cursor);
      pool_next = layout.cursor;
      pool = [];
      dropped_tenants = layout.dropped;
    }

-- hashBytes, FNV-1a at 32 bits, from the hash so far.
unfoldable pub hash_from : ℕ → Bytes → ℕ
hash_from hash [] = hash
hash_from hash (byte ∷ bytes) = hash_from (bit_xor hash byte * 16777619 % 2 ^ 32) bytes

unfoldable pub hash_bytes : Bytes → ℕ
unfolding hash_from
hash_bytes bytes = hash_from 2166136261 bytes

-- `start + int32(hashBytes(bytes) % uint32(size))`; `none` where the division by 0 panics.
unfoldable pub hashed_into : ℤ → ℤ → Bytes → Option ℤ
hashed_into start size bytes =
    if bits32 size == 0
    then none
    else some (wrap32 (start +ℤ wrap32 (pos (hash_bytes bytes % bits32 size))))

one_at : ReservationTable → Option ℤ → Option (ReservationTable × PartitionRange)
one_at table none = none
one_at table (some at) = some (table, record { start = at; size = pos 1 })

-- A tenant that finds the pool exhausted shares one of its partitions.
unfoldable pub shared_range : ReservationTable → Bytes → Option (ReservationTable × PartitionRange)
unfolding one_at
shared_range table tenant = one_at table (hashed_into table.pool_start table.pool_size tenant)

-- The size of the next range of the pool.
unfoldable pub pool_range_size : ReservationTable → ℤ
pool_range_size table =
    let remaining = wrap32 (wrap32 (table.pool_start +ℤ table.pool_size) -ℤ table.pool_next) in
    if ltb_ℤ remaining table.default_size then remaining else table.default_size

-- The table and the range once a new tenant of the pool gets `size` partitions.
unfoldable pub take_range : ReservationTable → Bytes → ℤ → ReservationTable × PartitionRange
take_range table tenant size =
    let rng : PartitionRange = record { start = table.pool_next; size = size } in
    (
      record table {
        pool_next = wrap32 (table.pool_next +ℤ size);
        pool = (tenant, rng) ∷ table.pool;
      },
      rng,
    )

-- poolRangeFor, by what the pool's map holds of the tenant.
pool_range_in :
    ReservationTable → Bytes → Option PartitionRange → Option (ReservationTable × PartitionRange)
pool_range_in table tenant (some rng) = some (table, rng)
pool_range_in table tenant none =
    if leb_ℤ (pool_range_size table) (pos 0)
    then shared_range table tenant
    else some (take_range table tenant (pool_range_size table))

unfoldable pub pool_range_for :
    ReservationTable → Bytes → Option (ReservationTable × PartitionRange)
unfolding pool_range_in
pool_range_for table tenant = pool_range_in table tenant (lookup table.pool tenant)

-- The range of a tenant: the explicit one, or one of the pool.
range_in :
    ReservationTable → Bytes → Option PartitionRange → Option (ReservationTable × PartitionRange)
range_in table tenant (some rng) = some (table, rng)
range_in table tenant none = pool_range_for table tenant

unfoldable pub range_for : ReservationTable → Bytes → Option (ReservationTable × PartitionRange)
unfolding range_in
range_for table tenant = range_in table tenant (lookup table.explicit tenant)

at_partition : ReservationTable → Option ℤ → Option (ReservationTable × ℤ)
at_partition table none = none
at_partition table (some at) = some (table, at)

partition_in : Bytes → Option (ReservationTable × PartitionRange) → Option (ReservationTable × ℤ)
unfolding at_partition
partition_in instrument none = none
partition_in instrument (some (table, rng)) =
    at_partition table (hashed_into rng.start rng.size instrument)

unfoldable pub partition_for : ReservationTable → Bytes → Bytes → Option (ReservationTable × ℤ)
unfolding partition_in
partition_for table tenant instrument = partition_in instrument (range_for table tenant)
