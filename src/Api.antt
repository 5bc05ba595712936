-- ===== src/Api.antt =====
-- internal/api: what the ingestion service accepts from its callers.
pub mod Requests
pub mod Characters
pub mod Handler
pub mod Auth
pub mod Keys
pub mod Server
pub mod Admitted
pub mod EndToEnd
pub mod RateLimiter
pub mod Grpc
pub mod Accepted
pub mod Delivered
pub mod GrpcAccepted
mod Tests
