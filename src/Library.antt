-- ===== src/Library.antt =====
-- The library of files on disk (core/crates/genrl-core/src/library): here the names that it gives.
pub mod Formatting
mod Tests
