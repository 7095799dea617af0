-- ===== src/Http/Breaker/Probe.antt =====
-- The half-open trial: `check` and `peek` agree, one trial at a time, and the exact cooldown.
use genrl_downloader.Prelude.{
  ℕ, ◌+◌, ◌≤◌, ◌≡◌, refl, true, some, none, ◌≢◌, ◌↔◌, ◌⊎◌, inl, inr, List, [], ◌∷◌, arith, All,
}
use genrl_downloader.Http.Breaker.{
  CircuitBreaker, Call, allow, reject, checks, peeks, fails, succeeds, closed, opened, half_open,
  check, peek, on_failure, step, run, allowed, allowed_in,
}
use genrl_downloader.Http.Breaker.Invariant.{IsValid}

-- On a valid breaker `peek` says yes exactly when `check` would let the request through.
pub peek-check_iff :
    (b : CircuitBreaker) (now : ℕ) → IsValid b → ((peek b now).1 ≡ true) ↔ ((check b now).1 ≡ allow)
unfolding peek check
peek-check_iff b now v = ground arith

-- Asking a valid breaker first spends nothing: `check` after `peek` gives the breaker and the verdict that `check` alone gives.
pub check-peek : (b : CircuitBreaker) (now : ℕ) → IsValid b → check (peek b now).0 now ≡ check b now
unfolding peek check
check-peek b now v = ground arith

-- The calls that do not report how a request went.
abbrev pub Asks : Call → Type 0
Asks (checks _) = Unit
Asks (peeks _) = Unit
Asks _ = ⊥

abbrev pub Busy : CircuitBreaker → Type 0
Busy b = (b.state ≡ half_open) × (b.probe_in_flight ≡ true)

Busy-step : (b : CircuitBreaker) (c : Call) → Asks c → Busy b → (step b c ≡ b) × (allowed b c ≡ 0)
unfolding step check
Busy-step b (checks now) a h = ground arith
Busy-step b (peeks now) a h = ground arith
Busy-step b (fails now) a h = absurd a
Busy-step b succeeds a h = absurd a

-- While a trial is out and nobody reports on it, no call changes the breaker and no check is allowed, however late.
pub Busy-run :
    (b : CircuitBreaker) (cs : List Call)
    → All Asks cs
    → Busy b
    → (run b cs ≡ b) × (allowed_in b cs ≡ 0)
unfolding run allowed_in
Busy-run b [] a h = (refl, refl)
Busy-run b (c ∷ cs) a h = ground (arith, Busy-step b c a.0 h, Busy-run b cs a.1 h)

one_question :
    (b : CircuitBreaker) (c : Call)
    → Asks c
    → b.state ≢ closed
    → b.opened_at ≢ none
    → ((allowed b c ≡ 0) × ((step b c).state ≢ closed) × ((step b c).opened_at ≢ none))
      ⊎ ((allowed b c ≡ 1) × Busy (step b c))
unfolding step check
one_question b (checks now) a h o = ground arith
one_question b (peeks now) a h o = ground arith
one_question b (fails now) a h o = absurd a
one_question b succeeds a h o = absurd a

-- From any breaker that is not closed and knows when it opened, as long as nobody reports on a
-- request, however many tasks ask and whenever they ask, at most one of them is let through.
pub single_trial :
    (b : CircuitBreaker) (cs : List Call)
    → All Asks cs
    → b.state ≢ closed
    → b.opened_at ≢ none
    → allowed_in b cs ≤ 1
unfolding allowed_in
single_trial b [] a h o = omega arith
single_trial b (c ∷ cs) a h o = elim (one_question b c a.0 h o) [
  | inl (n, h', o') ↦ omega (arith, single_trial (step b c) cs a.1 h' o')
  | inr (n, busy) ↦ omega (arith, (Busy-run (step b c) cs a.1 busy).1)
]

-- On an open breaker, the wait that a rejection names is exact: a check at time `t` is allowed
-- from `retry_in` after the rejection on, and at no time before.
pub retry_in_exact :
    (b : CircuitBreaker) (at now d t : ℕ)
    → b.state ≡ opened
    → b.opened_at ≡ some at
    → at ≤ now
    → (check b now).1 ≡ reject d
    → ((check b t).1 ≡ allow) ↔ (now + d ≤ t)
unfolding check
retry_in_exact b at now d t s o le h = ground arith

-- A trial that fails at `now` opens the breaker for a whole cooldown: with no further report, a
-- check at `t` is allowed exactly from `now + cooldown` on.
pub failed_trial_reopens :
    (b : CircuitBreaker) (now t : ℕ)
    → b.state ≡ half_open
    → now ≤ t
    → let b' = on_failure b now in
      (b'.state ≡ opened) × (((check b' t).1 ≡ allow) ↔ (now + b.cooldown ≤ t))
unfolding check on_failure
failed_trial_reopens b now t s le = ground arith
