-- ===== src/Http.antt =====
-- The HTTP layer (core/crates/genrl-core/src/http).
pub mod Time
pub mod Breaker
pub mod Backoff
pub mod Policy
pub mod Limiter
pub mod Cache
pub mod Wire
pub mod Gate
mod Tests
