-- ===== src/Rpc.antt =====
-- Package internal/rpc: the idempotency table, the registry and the dispatcher.
pub mod Registry
pub mod Dispatcher
pub mod Idempotency
pub mod Tests
