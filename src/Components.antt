-- ===== src/Components.antt =====
-- internal/components: what the nodes and the daemon run on.
pub mod Refs
pub mod Exec
pub mod Secret
pub mod Mcp
pub mod Singer
