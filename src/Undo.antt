-- ===== src/Undo.antt =====
-- src/undo: the operations that can be undone, their clean-up, and the conflicts of undoing them.
pub mod Operation
pub mod Cleanup
pub mod Conflicts
