-- ===== src/Auth.antt =====
-- Package internal/auth: API keys, the verify cache, the store and the middleware.
pub mod Cache
pub mod Record
pub mod Key
pub mod Middleware
pub mod Secret
pub mod Store
pub mod Tests
