-- ===== src/Http/Breaker/Invariant.antt =====
-- What holds of a breaker between two calls, and that every call keeps it.
use genrl_downloader.Prelude.{
  ℕ, ◌≤◌, ◌<◌, ◌≡◌, false, none, ◌≢◌, List, [], ◌∷◌, List, [], ◌∷◌, arith,
}
use genrl_downloader.Http.Time.{u32_max}
use genrl_downloader.Http.Breaker.{
  CircuitBreaker, Call, checks, peeks, fails, succeeds, closed, opened, new, run, step,
}

pub record IsValid (b : CircuitBreaker) : Type 0 where
  pub positive : 1 ≤ b.threshold
  pub word : b.threshold ≤ u32_max
  pub closed_below : b.state ≡ closed → b.failures < b.threshold
  pub closed_idle : b.state ≡ closed → b.probe_in_flight ≡ false
  pub open_reached : b.state ≡ opened → b.threshold ≤ b.failures
  pub open_idle : b.state ≡ opened → b.probe_in_flight ≡ false
  pub open_stamped : b.state ≡ opened → b.opened_at ≢ none

pub new-IsValid : (threshold cooldown : ℕ) → threshold ≤ u32_max → IsValid (new threshold cooldown)
unfolding new
new-IsValid threshold cooldown h = ground arith

-- Every call on a valid breaker leaves it valid.
pub step-IsValid : (b : CircuitBreaker) (c : Call) → IsValid b → IsValid (step b c)
unfolding step
step-IsValid b (checks now) v = ground arith
step-IsValid b (peeks now) v = ground arith
step-IsValid b (fails now) v = ground arith
step-IsValid b succeeds v = ground arith

-- Any sequence of calls, by any tasks at any times, leaves a valid breaker valid.
pub run-IsValid : (b : CircuitBreaker) (cs : List Call) → IsValid b → IsValid (run b cs)
unfolding run
run-IsValid b [] v = v
run-IsValid b (c ∷ cs) v = run-IsValid (step b c) cs (step-IsValid b c v)
