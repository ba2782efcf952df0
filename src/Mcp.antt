-- ===== src/Mcp.antt =====
-- internal/mcp/tools.go: the tools that a client can call.
pub mod Rows
pub mod Handler
pub mod Query
pub mod Explain
pub mod Search
pub mod Catalog
pub mod Tools
