-- ===== src/Mcp.antt =====
-- Package internal/mcp: the tools of the MCP server and the client of the gateway.
pub mod Values
pub mod Tools
pub mod Client
mod Tests
