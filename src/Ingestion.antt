-- ===== src/Ingestion.antt =====
-- internal/ingestion: the limit on calls in flight, and the Kafka partitioner.
pub mod Events
pub mod Backpressure
pub mod Partitioner
pub mod Publisher
pub mod Chain
