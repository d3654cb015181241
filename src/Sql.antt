-- ===== src/Sql.antt =====
-- Package internal/sql: the static checks of a statement and its transaction.
pub mod Validator
pub mod Errors
pub mod Executor
pub mod Tests
