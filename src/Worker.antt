-- ===== src/Worker.antt =====
-- The worker that carries a job through its steps (core/crates/genrl-core/src/worker): here what
-- an answer from the Inbox does to the job that asked.
pub mod Run
pub mod World
pub mod Sample
pub mod Inputs
pub mod Episodes
pub mod Helpers
pub mod Acquire
pub mod Add
pub mod Finish
pub mod Inbox
pub mod Laws
mod Tests
