-- ===== src/Consumer.antt =====
-- internal/processor/kafka: the processor's Kafka consumer.
pub mod Records
pub mod Config
pub mod Loop
pub mod Decoded
pub mod Lists
pub mod Reload
mod Tests
