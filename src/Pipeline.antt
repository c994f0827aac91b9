-- ===== src/Pipeline.antt =====
-- src/pipeline: what a write stores and logs, and the stages of a write and of a deletion.
pub mod ClassifyValue
pub mod FieldOrdering
pub mod EditsLog
pub mod Relationships
pub mod SchemaContext
pub mod World
pub mod Snapshot
pub mod Absorb
pub mod Execute
pub mod Delete
