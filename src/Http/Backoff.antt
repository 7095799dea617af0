-- ===== src/Http/Backoff.antt =====
-- The backoff rule of the HTTP layer (core/crates/genrl-core/src/http/backoff.rs). A random draw
-- is an argument: the factor of `jitter` in millionths, 900_000 up to 1_100_000.
pub mod Laws
use genrl_downloader.Prelude.{
  ℕ, zero, suc, ◌+◌, ◌-◌, ◌*◌, ◌/◌, min, max, Option, none, some, List, [], ◌∷◌, length, get_elem?,
  ◌==◌, if◌then◌else◌,
}

-- `none` would be a panic of `schedule[idx]`.
index_step : ℕ → List ℕ → Option ℕ
index_step attempt schedule = get_elem? schedule (min (max attempt 1 - 1) (length schedule - 1))

-- Delay before retry number `attempt`; steps past the end repeat the last one.
unfoldable pub delay_for : ℕ → List ℕ → Option ℕ
unfolding index_step
delay_for attempt [] = some 0
delay_for attempt (d ∷ ds) = index_step attempt (d ∷ ds)

unfoldable pub jitter : ℕ → ℕ → ℕ
jitter factor delay = if delay == 0 then delay else delay * factor / 1_000_000
