-- ===== src/Ledger.antt =====
-- internal/ledger: fixed-point amounts, the domain types, the repository interfaces.
pub mod Amount
pub mod Types
pub mod Repository
pub mod Storage
pub mod Pool
pub mod Memory
pub mod Breaker
