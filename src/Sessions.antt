-- ===== src/Sessions.antt =====
-- internal/sessions/sessions.go: the tracked sessions of the MCP clients.
pub mod Store
pub mod Order
pub mod Keyed
pub mod Prune
pub mod Bounds
pub mod History
mod Tests
