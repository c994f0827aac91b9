-- ===== src/Validation.antt =====
-- src/validation: the schema merge, coercion and validation of proposed field values.
pub mod Types
pub mod Coerce
pub mod Merge
pub mod ResolveDefault
pub mod Validate
pub mod Fixable
pub mod Conformance
