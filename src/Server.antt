-- ===== src/Server.antt =====
-- The server's command, cmd/server.
pub mod DirectDoer
mod Tests
