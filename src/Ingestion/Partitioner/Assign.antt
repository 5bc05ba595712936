-- ===== src/Ingestion/Partitioner/Assign.antt =====
-- Partitions for a record (internal/ingestion/kafka/partitioner.go, poolRangeFor and partitionFor).
use go_transaction_control_p.Ingestion.Partitioner.Ranges.{
  Stack-lookup, Chain-lookup, Within, Stack,
}
use go_transaction_control_p.Ingestion.Partitioner.Table.{IsTable}
use go_transaction_control_p.Prelude.Int.{leb_ℤ, ◌<ℤ◌, pos, ltb_ℤ, ◌-ℤ◌, ◌+ℤ◌}
use go_transaction_control_p.Prelude.Word.{wrap32}
use go_transaction_control_p.Prelude.{
  sym, ◌∙◌, false, Option-cases, ◌%◌, ap, some, Bytes, Option, refl, zero, Bool-cases, suc, ◌^◌,
  arith, ◌⊎◌, ◌≤◌, inr, ◌+◌, inl, ◌≡◌, ◌-◌, if◌then◌else◌, ◌<◌, ℕ,
}
use go_transaction_control_p.Ingestion.Partitioner.{
  lookup, range_for, pool_range_for, partition_for, hash_bytes, PartitionRange, take_range,
  shared_range, hashed_into, pool_range_size, ReservationTable,
}

-- The pool's remaining partitions.
remaining_pos :
    (total start left next : ℕ)
    → start + left ≡ total
    → next ≤ total
    → total < 2 ^ 31
    → wrap32 (wrap32 (pos start +ℤ pos left) -ℤ pos next) ≡ pos (total - next)
unfolding wrap32 ◌+ℤ◌ ◌-ℤ◌
remaining_pos total start left next s n w = ground arith

-- The next range of a valid table's pool: none is left, or it lies in the pool.
abbrev pub PoolRoom : (table : ReservationTable) → IsTable table → Type 0
PoolRoom table v =
    (pool_range_size table ≡ pos 0)
    ⊎ ((n : ℕ) × (pool_range_size table ≡ pos n) × (0 < n) × (v.next + n ≤ v.total))

smaller_of :
    (room default : ℕ)
    → 0 < default
    → ((if ltb_ℤ (pos room) (pos default) then pos room else pos default) ≡ pos 0)
      ⊎ ((n : ℕ) × ((if ltb_ℤ (pos room) (pos default) then pos room else pos default) ≡ pos n)
          × (0 < n)
          × (n ≤ room))
smaller_of zero default d = inl (ground arith)
smaller_of (suc room) default d = elim (Bool-cases (ltb_ℤ (pos (suc room)) (pos default))) [
  | inl e ↦ rw e (inr (suc room, refl, omega arith, omega arith))
  | inr e ↦ rw e (inr (default, refl, d, ground arith))
]

PoolRoom-IsTable : (table : ReservationTable) (v : IsTable table) → PoolRoom table v
unfolding pool_range_size
PoolRoom-IsTable table v = rw (v.start_is) (
    rw (v.size_is) (
      rw (v.next_is) (
        rw (v.default_is) (
          rw (remaining_pos v.total v.start v.pool_left v.next v.whole v.next_in v.word)
            (elim (smaller_of (v.total - v.next) v.default v.some_default) [
              | inl z ↦ inl z
              | inr (n, e, p, l) ↦ inr (n, e, p, omega (arith, l, v.next_in))
            ])))))

hashed_into-pos :
    (start size : ℕ) (bytes : Bytes)
    → 0 < size
    → start + size < 2 ^ 31
    → (at : ℕ) × (hashed_into (pos start) (pos size) bytes ≡ some (pos at))
      × (start ≤ at)
      × (at < start + size)
unfolding hashed_into wrap32 ◌+ℤ◌
hashed_into-pos start size bytes p w =
    let narrow : size % 2 ^ 32 ≡ size = omega arith in
    let less : hash_bytes bytes % size < size = grind arith in
    rw narrow (start + hash_bytes bytes % size, ground arith, omega arith, omega (arith, less))

-- What a table and a range are after a valid table with `total` partitions has found the range.
abbrev Found : ℕ → Option (ReservationTable × PartitionRange) → Type 0
Found total answer =
    (table : ReservationTable) × (rng : PartitionRange) × (answer ≡ some (table, rng))
    × IsTable table
    × (table.total_partitions ≡ pos total)
    × Within 0 total rng

shared_range-Found :
    (table : ReservationTable) (v : IsTable table) (tenant : Bytes)
    → Found v.total (shared_range table tenant)
unfolding shared_range
shared_range-Found table v tenant =
    let h =
      hashed_into-pos v.start v.pool_left tenant v.some_pool (omega (arith, v.whole, v.word)) in
    let e : hashed_into table.pool_start table.pool_size tenant ≡ some (pos h.0) =
      rw (v.start_is) (rw (v.size_is) (h.1)) in
    rw e (
      table,
      record { start = pos h.0; size = pos 1 },
      refl,
      v,
      v.total_is,
      (h.0, 1, refl, omega arith, omega arith, omega (arith, h.3, v.whole)),
    )

next_sum :
    (next n total : ℕ)
    → next + n ≤ total
    → total < 2 ^ 31
    → wrap32 (pos next +ℤ pos n) ≡ pos (next + n)
unfolding wrap32 ◌+ℤ◌
next_sum next n total l w = ground arith

take_range-Found :
    (table : ReservationTable) (v : IsTable table) (tenant : Bytes) (n : ℕ)
    → 0 < n
    → v.next + n ≤ v.total
    → Found v.total (some (take_range table tenant (pos n)))
unfolding take_range Stack
take_range-Found table v tenant n p l = (
  (take_range table tenant (pos n)).0,
  (take_range table tenant (pos n)).1,
  refl,
  record {
    total = v.total;
    start = v.start;
    pool_left = v.pool_left;
    next = v.next + n;
    default = v.default;
    total_is = v.total_is;
    start_is = v.start_is;
    size_is = v.size_is;
    next_is = rw (v.next_is) (next_sum v.next n v.total l v.word);
    default_is = v.default_is;
    whole = v.whole;
    word = v.word;
    some_pool = v.some_pool;
    some_default = v.some_default;
    default_word = v.default_word;
    next_in = l;
    explicit_chain = v.explicit_chain;
    pool_stack =
        (v.next, n, ap (λ s. record { start = s; size = pos n }) v.next_is, p, refl, v.pool_stack);
  },
  v.total_is,
  (v.next, n, ap (λ s. record { start = s; size = pos n }) v.next_is, p, omega arith, l),
)

pool_range_for-Found :
    (table : ReservationTable) (v : IsTable table) (tenant : Bytes)
    → Found v.total (pool_range_for table tenant)
unfolding pool_range_for
pool_range_for-Found table v tenant = elim (Option-cases (lookup table.pool tenant)) [
  | inl e ↦ rw e (elim (PoolRoom-IsTable table v) [
    | inl z ↦ rw z (shared_range-Found table v tenant)
    | inr (n, q, p, l) ↦
        let more : leb_ℤ (pool_range_size table) (pos 0) ≡ false = rw q (ground arith) in
        rw more (rw q (take_range-Found table v tenant n p l))
  ])
  | inr (r, e) ↦
      let within = Stack-lookup table.pool v.start v.next tenant r v.pool_stack e in
      rw e (
        table,
        r,
        refl,
        v,
        v.total_is,
        (within.0, within.1, within.2, within.3, omega arith, omega (arith, within.5, v.next_in)),
      )
]

range_for-Found :
    (table : ReservationTable) (v : IsTable table) (tenant : Bytes)
    → Found v.total (range_for table tenant)
unfolding range_for
range_for-Found table v tenant = elim (Option-cases (lookup table.explicit tenant)) [
  | inl e ↦ rw e (pool_range_for-Found table v tenant)
  | inr (r, e) ↦
      let within = Chain-lookup table.explicit 0 v.start tenant r v.explicit_chain e in
      rw e (
        table,
        r,
        refl,
        v,
        v.total_is,
        (within.0, within.1, within.2, within.3, omega arith, omega (arith, within.5, v.whole)),
      )
]

-- A valid table gives every record a partition, one of its topic's, without a run-time panic, and
-- stays valid.
pub partition_for_total :
    (table : ReservationTable)
    → IsTable table
    → (tenant instrument : Bytes)
    → (table' : ReservationTable) × (at : ℕ) × (partition_for table tenant instrument
        ≡ some (table', pos at))
      × IsTable table'
      × (pos at <ℤ table.total_partitions)
      × (table'.total_partitions ≡ table.total_partitions)
unfolding partition_for
partition_for_total table v tenant instrument =
    let (table', rng, e, v', t, (at, n, r, p, l, u)) = range_for-Found table v tenant in
    let h = hashed_into-pos at n instrument p (omega (arith, u, v.word)) in
    let q : hashed_into rng.start rng.size instrument ≡ some (pos h.0) = rw r (h.1) in
    rw e (rw q (table', h.0, refl, v', rw (v.total_is) (omega (arith, h.3, u)), t ∙ sym v.total_is))
