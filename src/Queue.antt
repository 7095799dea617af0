-- ===== src/Queue.antt =====
-- The queue's engine (core/crates/genrl-core/src/queue).
pub mod Reconcile
pub mod Scheduler
pub mod Resume
pub mod Status
mod Tests
