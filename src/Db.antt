-- ===== src/Db.antt =====
-- Package internal/db: migrations, the passwords of roles, and the keys from the command line.
pub mod Migrate
pub mod Keys
mod Tests
