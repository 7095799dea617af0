-- ===== src/Http/Breaker/Trip.antt =====
-- When the breaker opens: `threshold` failures in a row, and nothing less.
use genrl_downloader.Prelude.{ℕ, suc, ◌+◌, ◌≤◌, ◌<◌, max, ◌≡◌, ◌↔◌, List, [], ◌∷◌, arith}
use genrl_downloader.Http.Time.{u32_max}
use genrl_downloader.Http.Breaker.{
  CircuitBreaker, Call, checks, peeks, fails, succeeds, closed, opened, new, on_failure, step, run,
}

-- The failures since the last success, counted on from `n`.
abbrev pub streak : ℕ → List Call → ℕ
streak n [] = n
streak n (checks _ ∷ cs) = streak n cs
streak n (peeks _ ∷ cs) = streak n cs
streak n (fails _ ∷ cs) = streak (suc n) cs
streak n (succeeds ∷ cs) = streak 0 cs

-- That count stays below `limit` throughout.
abbrev pub StaysBelow : ℕ → ℕ → List Call → Type 0
StaysBelow limit n [] = Unit
StaysBelow limit n (checks _ ∷ cs) = StaysBelow limit n cs
StaysBelow limit n (peeks _ ∷ cs) = StaysBelow limit n cs
StaysBelow limit n (fails _ ∷ cs) = (suc n < limit) × StaysBelow limit (suc n) cs
StaysBelow limit n (succeeds ∷ cs) = StaysBelow limit 0 cs

record IsClosedAt (limit n : ℕ) (b : CircuitBreaker) : Type 0 where
  shut : b.state ≡ closed
  count : b.failures ≡ n
  line : b.threshold ≡ limit
  word : limit ≤ u32_max

asked :
    (limit n now : ℕ) (b : CircuitBreaker)
    → IsClosedAt limit n b
    → (step b (checks now) ≡ b) × (step b (peeks now) ≡ b)
unfolding step
asked limit n now b h = ground arith

failed :
    (limit n now : ℕ) (b : CircuitBreaker)
    → IsClosedAt limit n b
    → suc n < limit
    → IsClosedAt limit (suc n) (step b (fails now))
unfolding step
failed limit n now b h lt = ground arith

succeeded :
    (limit n : ℕ) (b : CircuitBreaker) → IsClosedAt limit n b → IsClosedAt limit 0 (step b succeeds)
unfolding step
succeeded limit n b h = ground arith

run-IsClosedAt :
    (limit n : ℕ) (b : CircuitBreaker) (cs : List Call)
    → IsClosedAt limit n b
    → StaysBelow limit n cs
    → IsClosedAt limit (streak n cs) (run b cs)
unfolding run
run-IsClosedAt limit n b [] h below = h
run-IsClosedAt limit n b (checks now ∷ cs) h below =
    rw (asked limit n now b h).0 (run-IsClosedAt limit n b cs h below)
run-IsClosedAt limit n b (peeks now ∷ cs) h below =
    rw (asked limit n now b h).1 (run-IsClosedAt limit n b cs h below)
run-IsClosedAt limit n b (fails now ∷ cs) h below =
    run-IsClosedAt limit (suc n) (step b (fails now)) cs (failed limit n now b h below.0) below.1
run-IsClosedAt limit n b (succeeds ∷ cs) h below =
    run-IsClosedAt limit 0 (step b succeeds) cs (succeeded limit n b h) below

new-IsClosedAt :
    (threshold cooldown : ℕ)
    → threshold ≤ u32_max
    → IsClosedAt (max threshold 1) 0 (new threshold cooldown)
unfolding new
new-IsClosedAt threshold cooldown h = ground arith

trips :
    (limit n now : ℕ) (b : CircuitBreaker)
    → IsClosedAt limit n b
    → n < limit
    → ((on_failure b now).state ≡ opened) ↔ (limit ≤ n + 1)
unfolding on_failure
trips limit n now b h lt = ground arith

streak_below :
    (limit n : ℕ) (cs : List Call) → n < limit → StaysBelow limit n cs → streak n cs < limit
streak_below limit n [] lt h = lt
streak_below limit n (checks _ ∷ cs) lt h = streak_below limit n cs lt h
streak_below limit n (peeks _ ∷ cs) lt h = streak_below limit n cs lt h
streak_below limit n (fails _ ∷ cs) lt h = streak_below limit (suc n) cs h.0 h.1
streak_below limit n (succeeds ∷ cs) lt h = streak_below limit 0 cs (omega arith) h

-- A new breaker, after any calls in which the failures since the last success stayed below the
-- threshold (at least 1), is closed and has counted exactly those failures; one more failure opens
-- it exactly when it makes them reach the threshold.
pub opens_at_threshold :
    (threshold cooldown now : ℕ) (cs : List Call)
    → threshold ≤ u32_max
    → StaysBelow (max threshold 1) 0 cs
    → let b = run (new threshold cooldown) cs in
      (b.state ≡ closed)
      × (b.failures ≡ streak 0 cs)
      × (((on_failure b now).state ≡ opened) ↔ (max threshold 1 ≤ streak 0 cs + 1))
opens_at_threshold threshold cooldown now cs w below =
    let limit = max threshold 1 in
    let at =
      run-IsClosedAt limit 0 (new threshold cooldown) cs (new-IsClosedAt threshold cooldown w)
        below in
    let lt = streak_below limit 0 cs (omega arith) below in
    (at.shut, at.count, trips limit (streak 0 cs) now (run (new threshold cooldown) cs) at lt)
