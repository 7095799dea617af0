-- ===== src/Jobs/Ladder.antt =====
-- The queue's backoff (core/crates/genrl-core/src/jobs/backoff.rs). Durations are nanoseconds; a
-- random sample is in thousandths, clamped to 0 up to 1000.
use genrl_downloader.Prelude.{
  ℕ, zero, suc, ◌+◌, ◌-◌, ◌*◌, ◌/◌, ◌%◌, ◌≤◌, min, max, ◌≡◌, refl, some, List, [], ◌∷◌, get_elem?,
  unwrap_or, ap, arith,
}
use genrl_downloader.Http.Time.{from_secs}
use genrl_downloader.Http.Backoff.{delay_for}
use genrl_downloader.Http.Policy.{default_backoff_schedule}

abbrev ladder : List ℕ
ladder = 5 ∷ 30 ∷ 120 ∷ 600 ∷ 3600 ∷ []

unfoldable pub backoff_delay : ℕ → ℕ
backoff_delay attempts = from_secs (unwrap_or (get_elem? ladder (max attempts 1 - 1)) 3600)

unfoldable pub with_jitter : ℕ → ℕ → ℕ
with_jitter delay sample = delay + delay * min sample 1000 / 4000

unfoldable pub start_of_day : ℕ → ℕ
start_of_day at = at - at % 86_400

last_index : (n : ℕ) → min (max (suc (suc (suc (suc (suc n))))) 1 - 1) (5 - 1) ≡ 4
last_index n = omega arith

past : (n : ℕ) → max (suc (suc (suc (suc (suc n))))) 1 - 1 ≡ suc (suc (suc (suc n)))
past n = omega arith

held :
    (n : ℕ)
    → from_secs 3600 ≡ from_secs (unwrap_or (get_elem? ladder (suc (suc (suc (suc n))))) 3600)
held zero = refl
held (suc n) = refl

-- The queue's ladder and the HTTP layer's default schedule are one rule: they give the same delay
-- for every number of attempts, and indexing the schedule never panics.
pub backoff_delay-eq-delay_for :
    (attempts : ℕ) → delay_for attempts default_backoff_schedule ≡ some (backoff_delay attempts)
unfolding backoff_delay delay_for
backoff_delay-eq-delay_for zero = refl
backoff_delay-eq-delay_for (suc zero) = refl
backoff_delay-eq-delay_for (suc (suc zero)) = refl
backoff_delay-eq-delay_for (suc (suc (suc zero))) = refl
backoff_delay-eq-delay_for (suc (suc (suc (suc zero)))) = refl
backoff_delay-eq-delay_for (suc (suc (suc (suc (suc n))))) =
    rw (last_index n) (rw (past n) (ap some (held n)))

scaled : (delay m : ℕ) → m ≤ 1000 → delay * m ≤ delay * 1000
scaled delay m h = grind arith

-- Jitter never shortens a delay and lengthens it by at most a quarter.
pub with_jitter_bounds :
    (delay sample : ℕ)
    → (delay ≤ with_jitter delay sample) × (4 * with_jitter delay sample ≤ 5 * delay)
unfolding with_jitter
with_jitter_bounds delay sample = omega (arith, scaled delay (min sample 1000) (omega arith))
