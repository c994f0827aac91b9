-- ===== src/GlobalFields.antt =====
-- src/global-fields: the definitions of fields, and the hints that a field carries for its display.
pub mod UiHints
pub mod Crud
pub mod TypeChange
