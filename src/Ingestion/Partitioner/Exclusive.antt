-- ===== src/Ingestion/Partitioner/Exclusive.antt =====
-- Tenants keep their partitions to themselves (internal/ingestion/kafka/partitioner.go,
-- reservationTable's comment).
-- The tenant has a range of its own, reserved or from the pool.
use go_transaction_control_p.Ingestion.Partitioner.Layout.{Fits}
use go_transaction_control_p.Prelude.Word.{wrap32}
use go_transaction_control_p.Ingestion.Partitioner.Ranges.{
  Stack-Apart, Apart-sym, Stack-lookup, Chain-lookup, Apart-of_Within, Chain-Apart, Apart,
}
use mathlib.Core.Path.{subst}
use go_transaction_control_p.Prelude.Int.{ltb_ℤ, ◌-ℤ◌, ◌+ℤ◌, pos_part, pos, leb_ℤ, ℤ}
use go_transaction_control_p.Ingestion.Partitioner.Assign.{partition_for_total}
use go_transaction_control_p.Prelude.{
  arith, true, refl, if◌then◌else◌, ◌-◌, All, ◌^◌, ◌<◌, ℕ, eq_of_eq_bytes, ◌∙◌, eq_bytes, sym, inl,
  Bool-cases, ◌∷◌, some_inj, ◌⊎◌, none, inr, ap, ◌≢◌, ◌≡◌, some, Option-cases, Option, List, Bytes,
}
use go_transaction_control_p.Ingestion.Partitioner.Table.{new_reservation_table-IsTable, IsTable}
use go_transaction_control_p.Ingestion.Partitioner.{
  partition_in, new_reservation_table, at_partition, TenantPartitionConfig, hashed_into,
  pool_range_size, partition_for, shared_range, PartitionRange, pool_range_for, take_range,
  range_for, one_at, lookup, ReservationTable,
}

abbrev pub Owner : ReservationTable → Bytes → PartitionRange → Type 0
Owner table tenant rng =
    (lookup table.explicit tenant ≡ some rng) ⊎ (lookup table.pool tenant ≡ some rng)

owners-Apart :
    (table : ReservationTable) (v : IsTable table) (a b : Bytes) (r r' : PartitionRange)
    → a ≢ b
    → Owner table a r
    → Owner table b r'
    → Apart r r'
owners-Apart table v a b r r' d (inl h) (inl h') =
    Chain-Apart table.explicit 0 v.start a b r r' v.explicit_chain h h' d
owners-Apart table v a b r r' d (inl h) (inr h') =
    Apart-of_Within 0 v.start v.next r r'
      (Chain-lookup table.explicit 0 v.start a r v.explicit_chain h)
      (Stack-lookup table.pool v.start v.next b r' v.pool_stack h')
owners-Apart table v a b r r' d (inr h) (inl h') = Apart-sym r' r (
    Apart-of_Within 0 v.start v.next r' r
      (Chain-lookup table.explicit 0 v.start b r' v.explicit_chain h')
      (Stack-lookup table.pool v.start v.next a r v.pool_stack h))
owners-Apart table v a b r r' d (inr h) (inr h') =
    Stack-Apart table.pool v.start v.next a b r r' v.pool_stack h h' d

-- A record of a tenant and an instrument leads from a table to the next one.
abbrev pub Serves : ReservationTable → Bytes → Bytes → ReservationTable → Type 0
Serves table tenant instrument table' =
    (at : ℤ) × (partition_for table tenant instrument ≡ some (table', at))

-- The tables after some records.
pub data Reaches (table : ReservationTable) : ReservationTable → Type 0 where
  here : Reaches table table
  one_more :
      {mid last : ReservationTable} (tenant instrument : Bytes)
      → Reaches table mid
      → Serves mid tenant instrument last
      → Reaches table last

pub Reaches-IsTable :
    (first last : ReservationTable) → IsTable first → Reaches first last → IsTable last
Reaches-IsTable first _ v here = v
Reaches-IsTable first last v (one_more {mid} tenant instrument path (at, e)) =
    let served = partition_for_total mid (Reaches-IsTable first mid v path) tenant instrument in
    subst IsTable (ap (λ p. p.0) (some_inj (sym served.2 ∙ e))) served.3

lookup-kept :
    (entries : List (Bytes × PartitionRange)) (k key : Bytes) (r rng : PartitionRange)
    → lookup entries k ≡ none
    → lookup entries key ≡ some rng
    → lookup ((k, r) ∷ entries) key ≡ some rng
unfolding lookup
lookup-kept entries k key r rng n h = elim (Bool-cases (eq_bytes k key)) [
  | inl e ↦ let same : k ≡ key = eq_of_eq_bytes k key e in absurd (cc)
  | inr e ↦ rw e h
]

-- Whatever a table finds for one tenant, another one keeps its range.
abbrev Keeps : ReservationTable → Option (ReservationTable × PartitionRange) → Type 0
Keeps table answer =
    (table' : ReservationTable) (rng : PartitionRange)
    → answer ≡ some (table', rng)
    → (a : Bytes) (r : PartitionRange) → Owner table a r
    → Owner table' a r

one_at-Keeps : (table : ReservationTable) (at : Option ℤ) → Keeps table (one_at table at)
unfolding one_at
one_at-Keeps table none table' rng e a r o = absurd (cc)
one_at-Keeps table (some at) table' rng e a r o =
    subst (λ t. Owner t a r) (ap (λ p. p.0) (some_inj e)) o

take_range-Keeps :
    (table : ReservationTable) (tenant : Bytes) (size : ℤ)
    → lookup table.pool tenant ≡ none
    → Keeps table (some (take_range table tenant size))
unfolding take_range
take_range-Keeps table tenant size n table' rng e a r o =
    let same : (take_range table tenant size).0 ≡ table' = ap (λ p. p.0) (some_inj e) in
    subst (λ t. Owner t a r) same
      (elim o [
        | inl h ↦ inl h
        | inr h ↦ inr (lookup-kept table.pool tenant a (take_range table tenant size).1 r n h)
      ])

range_for-Keeps : (table : ReservationTable) (tenant : Bytes) → Keeps table (range_for table tenant)
unfolding range_for pool_range_for shared_range
range_for-Keeps table tenant = elim (Option-cases (lookup table.explicit tenant)) [
  | inr (r, e) ↦
      rw e (λ table' rng q a r' o. subst (λ t. Owner t a r') (ap (λ p. p.0) (some_inj q)) o)
  | inl e ↦ rw e (elim (Option-cases (lookup table.pool tenant)) [
    | inr (r, p) ↦
        rw p (λ table' rng q a r' o. subst (λ t. Owner t a r') (ap (λ p. p.0) (some_inj q)) o)
    | inl p ↦ rw p (elim (Bool-cases (leb_ℤ (pool_range_size table) (pos 0))) [
      | inl z ↦ rw z (one_at-Keeps table (hashed_into table.pool_start table.pool_size tenant))
      | inr z ↦ rw z (take_range-Keeps table tenant (pool_range_size table) p)
    ])
  ])
]

at_partition-inv :
    (table table' : ReservationTable) (at : Option ℤ) (p : ℤ)
    → at_partition table at ≡ some (table', p)
    → table ≡ table'
unfolding at_partition
at_partition-inv table table' none p e = absurd (cc)
at_partition-inv table table' (some at) p e = ap (λ q. q.0) (some_inj e)

partition_in-inv :
    (instrument : Bytes) (answer : Option (ReservationTable × PartitionRange))
    (table' : ReservationTable) (at : ℤ)
    → partition_in instrument answer ≡ some (table', at)
    → (rng : PartitionRange) × (answer ≡ some (table', rng))
unfolding partition_in
partition_in-inv instrument none table' at e = absurd (cc)
partition_in-inv instrument (some (table, rng)) table' at e =
    let same = at_partition-inv table table' (hashed_into rng.start rng.size instrument) at e in
    (rng, ap (λ t. some (t, rng)) same)

Serves-Keeps :
    (table table' : ReservationTable) (tenant instrument a : Bytes) (r : PartitionRange)
    → Serves table tenant instrument table'
    → Owner table a r
    → Owner table' a r
unfolding partition_for
Serves-Keeps table table' tenant instrument a r (at, e) o =
    let found = partition_in-inv instrument (range_for table tenant) table' at e in
    range_for-Keeps table tenant table' found.0 found.1 a r o

-- A tenant that has a range of its own keeps it, whatever records follow.
pub Owner-kept :
    (table last : ReservationTable) (a : Bytes) (r : PartitionRange)
    → Reaches table last
    → Owner table a r
    → Owner last a r
Owner-kept table _ a r here o = o
Owner-kept table last a r (one_more {mid} tenant instrument path serve) o =
    Serves-Keeps mid last tenant instrument a r serve (Owner-kept table mid a r path o)

-- Whatever records a new table for at least two partitions has served, the ranges that two tenants
-- own share no partition, provided that the sum of no reservation with the number of partitions
-- leaves int32.
pub exclusive_ranges :
    (reserved : TenantPartitionConfig) (default_size : ℤ) (total : ℕ) (last : ReservationTable)
    (a b : Bytes) (r r' : PartitionRange)
    → 1 < total
    → total < 2 ^ 31
    → pos_part default_size < 2 ^ 31
    → All (Fits (total - 1)) reserved
    → Reaches (new_reservation_table reserved default_size (pos total)) last
    → a ≢ b
    → Owner last a r
    → Owner last b r'
    → Apart r r'
exclusive_ranges reserved default_size total last a b r r' h w d f path n o o' =
    let first = new_reservation_table reserved default_size (pos total) in
    let v = new_reservation_table-IsTable reserved default_size total h w d f in
    owners-Apart last (Reaches-IsTable first last v path) a b r r' n o o'

empty_room :
    (n d : ℕ)
    → n < 2 ^ 31
    → 0 < d
    → (let remaining = wrap32 (wrap32 (pos n +ℤ pos 0) -ℤ pos n) in
        if ltb_ℤ remaining (pos d) then remaining else pos d)
      ≡ pos 0
unfolding wrap32 ◌+ℤ◌ ◌-ℤ◌
empty_room n d w p = ground arith

no_modulus : (start : ℤ) (tenant : Bytes) → hashed_into start (pos 0) tenant ≡ none
unfolding hashed_into
no_modulus start tenant = refl

empty_pool_size :
    (table : ReservationTable) (n d : ℕ)
    → table.pool_start ≡ pos n
    → table.pool_size ≡ pos 0
    → table.pool_next ≡ pos n
    → table.default_size ≡ pos d
    → n < 2 ^ 31
    → 0 < d
    → pool_range_size table ≡ pos 0
unfolding pool_range_size
empty_pool_size table n d a b c e w p = rw a (rw b (rw c (rw e (empty_room n d w p))))

-- In a table whose pool is empty from the start, a record of a tenant that has no range ends in a
-- run-time panic (a division by 0).
pub empty_pool_panics :
    (table : ReservationTable) (tenant instrument : Bytes) (n d : ℕ)
    → lookup table.explicit tenant ≡ none
    → lookup table.pool tenant ≡ none
    → table.pool_start ≡ pos n
    → table.pool_size ≡ pos 0
    → table.pool_next ≡ pos n
    → table.default_size ≡ pos d
    → n < 2 ^ 31
    → 0 < d
    → partition_for table tenant instrument ≡ none
unfolding partition_for range_for pool_range_for shared_range
empty_pool_panics table tenant instrument n d g h a b c e w p =
    let z = empty_pool_size table n d a b c e w p in
    let more : leb_ℤ (pool_range_size table) (pos 0) ≡ true = rw z refl in
    rw g (rw h (rw more (rw b (rw (no_modulus table.pool_start tenant) refl))))
