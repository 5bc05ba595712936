-- ===== src/Lib.antt =====
-- The go-transaction-control-plane: an ingestion service publishes trades to Kafka, a processor folds
-- them into positions in Postgres, and an operator classifies tenants and moves noisy ones to nodes of
-- their own. This library models the parts that carry the logic; each file opens with the source
-- that it is about.
--
-- Files and sources:
-- - Prelude and its children: names of the libraries, Boolean tests, lists and bytes, results of
--   fallible code, integers over the native numbers, wrap-around of int64 and int32.
-- - Ledger/Amount (internal/ledger/amount.go): ParseAmount, FormatAmount, MulAmount, DivAmount, as
--   parse_amount, format_amount, mul_amount and div_amount.
-- - Ledger/Types, Ledger/Repository (internal/ledger/ledger.go): the domain types, and the two
--   repository interfaces as records of operations over a world of stored tables. IsLedger and
--   IsStateTable are the contract of their comments: an append-only ledger with one row for an event,
--   and a compare-and-swap on the watermark. A call that fails may have been carried out or not.
--   Ledger/Memory holds tables in memory that keep the contract.
-- - Processor (internal/processor/processor.go): Reconcile and applyTransaction, as reconcile and
--   apply_transaction. Reconcile is cut at its early returns into after_insert, after_lookup,
--   with_row, after_get, fold_in, write_back and after_upsert; the repositories are parameters.
-- - Ledger/Storage (internal/ledger/storage/transaction_store.go, reconciled_state_store.go): the stores
--   over Postgres, as store_insert, store_get_by_event_id, store_list_by_tenant, store_upsert and
--   store_get. Each SQL statement of the code is a function on the two tables, with the constraints of
--   the migrations; execute runs it with a request or a reply lost as the database's faults say.
--   Ledger/Pool (internal/ledger/storage/pool.go) has the settings of the connection pool.
-- - Processor/Instrumented (internal/processor/metrics.go): the reconciler with its metrics.
--   Processor/Service composes reconciler, breakers and stores as cmd/processor/main.go does.
-- - Breaker (internal/corebreaker/corebreaker.go): New, Allow, ProbeContext, Record and ForceOpen, as
--   new, allow, probe_bound, record_outcome and force_open. The mutex makes each call one step; the
--   clock's reading is an argument.
-- - Ledger/Breaker (internal/ledger/breaker.go): the breakers before the two repositories. The world
--   of a call is the tables with the two machines; the wrapped repository takes the bound that a
--   probe's context gets. Breakers are repositories themselves, so they compose with Processor.
-- - Ingestion/Backpressure (internal/ingestion/backpressure.go): the limiter's slots, as take_slot and
--   release_slot; the interleavings of calls are InFlight.
-- - Ingestion/Partitioner (internal/ingestion/kafka/partitioner.go): the reservation table, as
--   new_reservation_table, pool_range_for and partition_for. A map is a list of entries with
--   different keys; a division by 0, which panics, gives none; the tables that records lead to are
--   Reaches. Ingestion/Partitioner/Topic is the partitioner of a topic, with Partition as partition,
--   and the hot reload of internal/ingestion/kafka/reload.go; a version stands for the shared pointer.
-- - Ingestion/Events, Ingestion/Publisher (internal/ingestion/ingestion.go,
--   internal/ingestion/kafka/publisher.go): the event, its wire form and partition key, Publish, as
--   publish, and the settings. The Kafka client, JSON and the formatting of times are parameters.
-- - Ingestion/Chain (internal/ingestion/breaker.go, backpressure.go, metrics.go): the publishers that
--   wrap one another, as breaker_publish, limiter_publish and instrumented_publish, and the chain of
--   cmd/ingestion/main.go, as chain_publish. What other calls do to the shared machine, slots and
--   metrics while the innermost publisher runs is a function of its own, meanwhile.
-- - Api/Auth (internal/api/auth_interceptor.go), Api/RateLimiter (internal/api/rate_limiter.go) and
--   Api/Server (internal/api/server.go, grpc_server.go): the check of the key, the token buckets, and
--   the order of both before the handlers. The operations of float64 are the parameter Floats;
--   Api/EndToEnd puts the whole ingestion service together.
-- - Settings (cmd/ingestion/main.go, cmd/processor/main.go) and Operator/Settings
--   (operator/cmd/main.go): what the programs read from their environment. Settings/Start is run of
--   cmd/ingestion/main.go up to the start of the two servers; whether kafka.NewPublisher, which makes a
--   Kafka client, and the registration of the metrics succeed are parameters. Metrics
--   (internal/metrics): the labels of tenants and the names of metrics.
-- - Api/Requests, Api/Handler (internal/api/transaction_handler.go) and Api/Grpc
--   (internal/api/grpc_transaction_handler.go): validation, the translation to events and the two
--   handlers, as handle_transaction and ingest_transaction, over the world of a publisher. The body is
--   what was read of it; the JSON decoder, uuid.Parse and time.Parse are parameters.
-- - Consumer/Config, Consumer/Records, Consumer/Loop (internal/processor/kafka/consumer.go): the
--   settings, decodeTransaction, publishToDLQ, reconcileWithRetry and Run, as decode_transaction,
--   publish_to_dlq, reconcile_with_retry and run. The world is everything around the loop: the Kafka
--   client, the reconciler, the context, the metrics. poll_round is one iteration of Run; the
--   callbacks of EachPartition and EachRecord are handle_partition and handle_record.
-- - Consumer/Reload (internal/processor/kafka/reload.go): loadTarget, applyAssignment, reloadOnce and
--   Run, as load_target, apply_assignment, reload_once and run, over a client that adds and removes
--   partitions.
-- - Operator and its child modules (operator/internal/controller/tradingtenant_controller.go,
--   dedicated_pool.go and tenant_partition_map.go, with operator/api/v1alpha1/tradingtenant_types.go):
--   Operator has classify, clampReplicas and the decision of a pass; Operator/Reconcile is Reconcile,
--   as reconcile_tenant; Operator/Pool has the objects of a dedicated pool with the mutations that
--   CreateOrUpdate applies, ensureDedicatedPool and tearDownDedicatedPool; Operator/PartitionMap has
--   mutateTenantPartitionMap, as mutate_map; Operator/PartitionList has partitionListString. The
--   Kubernetes client and the observer are parameters. Operator/Queries
--   (operator/internal/promquery/client.go) has the queries, their escaping and their conversion.
--
-- How they interact: a request passes Api/Auth and Api/RateLimiter to a handler of Api, which publishes
-- an event through Ingestion/Chain; at its end Ingestion/Publisher produces it under a key that
-- Ingestion/Partitioner splits. Consumer/Loop decodes it and hands it to the reconciler of Processor,
-- which writes to Ledger/Storage through Ledger/Breaker, or to the dead-letter topic. The operator
-- observes tenants through Operator/Queries and writes the ranges that Consumer/Config and
-- Consumer/Reload read.
--
-- Numbers: an int64 or int32 is the integer that it stands for, and each sum, difference and
-- negation of the code that can leave its range is wrapped (wrap64, wrap32). A string is the list of
-- its bytes. Every function is structural recursion. Two loops of the code have no bound: Run of
-- the consumer is run with a number of iterations, and says what every iteration does; the new start
-- of mutateTenantPartitionMap after a lost create race has a number of rounds, of which one is enough
-- where no one else writes. The retries of the consumer take the rounds of their own limit.
--
-- Not modelled: NewConsumer, NewPublisher and their Close, which wire clients; the reading of files,
-- listening and shutting down of the servers, the registration of metrics, and generated code; the
-- operator's manager; Postgres itself beyond the meaning of the statements, its isolation and two
-- calls at once in one statement; the rounding of float64, for which the bound of the rate limiter is
-- stated in fixed-point arithmetic; the error texts (each error is a constructor, an error that
-- reaches a dead-letter record is its text); contexts, other than the bound of a probe and whether the
-- consumer's is cancelled; a stored partition map whose text is JSON's null.
pub mod Prelude
pub mod Api
pub mod Breaker
pub mod Consumer
pub mod Ledger
pub mod Ingestion
pub mod Operator
pub mod Processor
pub mod Metrics
pub mod Settings
