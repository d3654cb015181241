-- ===== src/Httpapi.antt =====
-- Package internal/httpapi: rate limiting and the error table.
pub mod TokenBucket
pub mod RateLimit
pub mod Errors
pub mod Api
pub mod Wrappers
mod Tests
