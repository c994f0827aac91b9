-- ===== src/Schema.antt =====
-- src/schema: where a node lives, and what an update of a schema changes.
pub mod Paths
pub mod Diff
