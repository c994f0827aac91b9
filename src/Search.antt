-- ===== src/Search.antt =====
-- src/search: the chunks of a long document.
pub mod Chunker
