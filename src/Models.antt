-- ===== src/Models.antt =====
-- The enums of core/crates/genrl-core/src/models.rs with their text forms, one file to an enum
-- of the work queue, and the enums of the list of shows.
pub mod JobState
pub mod JobKind
pub mod Shows
mod RoundTrip
