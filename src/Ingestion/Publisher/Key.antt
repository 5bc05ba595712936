-- ===== src/Ingestion/Publisher/Key.antt =====
-- The partition key of an event (internal/ingestion/kafka/publisher.go, partitionKey) taken apart
-- again (partitioner.go, splitPartitionKey).
use go_transaction_control_p.Ingestion.Publisher.{partition_key}
use go_transaction_control_p.Prelude.{refl, [], arith, ◌∷◌, ◌≢◌, ◌≡◌, All, Bytes}
use go_transaction_control_p.Ingestion.Partitioner.{split_partition_key}

-- A text without the separator.
abbrev pub HasNoColon : Bytes → Type 0
HasNoColon = All (λ c. c ≢ b':')

pub split_partition_key-partition_key :
    (tenant instrument : Bytes)
    → HasNoColon tenant
    → split_partition_key (partition_key tenant instrument) ≡ (tenant, instrument)
unfolding split_partition_key partition_key
split_partition_key-partition_key [] instrument h = refl
split_partition_key-partition_key (c ∷ tenant) instrument h =
    ground (arith, split_partition_key-partition_key tenant instrument h.1)
