-- ===== src/Http/Breaker/Tests.antt =====
-- The breaker at concrete times (core/crates/genrl-core/src/http/breaker.rs).
use genrl_downloader.Prelude.{
  ◌+◌, ◌≤◌, max, ◌≡◌, refl, ◌↔◌, true, false, some, List, [], ◌∷◌, arith,
}
use genrl_downloader.Http.Breaker.{
  CircuitBreaker, Call, reject, checks, peeks, fails, succeeds, closed, opened, half_open, new,
  check, on_failure, run, allowed_in,
}
use genrl_downloader.Http.Breaker.Invariant.{IsValid, run-IsValid, new-IsValid}
use genrl_downloader.Http.Breaker.Probe.{single_trial}
use genrl_downloader.Http.Breaker.Trip.{streak, opens_at_threshold}

-- Opened at 100 after two failures.
abbrev tripped : CircuitBreaker
tripped = record {
  threshold = 2;
  cooldown = 30;
  state = opened;
  failures = 2;
  opened_at = some 100;
  probe_in_flight = false;
}

abbrev trying : CircuitBreaker
trying = record tripped { state = half_open; probe_in_flight = true }

tripped-IsValid : IsValid tripped
tripped-IsValid = ground arith

reject_test : (check tripped 110).1 ≡ reject 20
unfolding check
reject_test = refl

abbrev calls : List Call
calls = checks 0 ∷ fails 5 ∷ succeeds ∷ checks 9 ∷ fails 12 ∷ fails 13 ∷ checks 20 ∷ []

run-IsValid_example : IsValid (run (new 2 30) calls)
run-IsValid_example = run-IsValid (new 2 30) calls (new-IsValid 2 30 (ground arith))

single_trial_example :
    allowed_in tripped (checks 110 ∷ peeks 130 ∷ checks 131 ∷ checks 900 ∷ []) ≤ 1
single_trial_example =
    single_trial tripped (checks 110 ∷ peeks 130 ∷ checks 131 ∷ checks 900 ∷ []) (ground arith)
      (ground arith) (ground arith)

abbrev quiet : List Call
quiet = fails 1 ∷ succeeds ∷ checks 2 ∷ fails 3 ∷ []

opens_at_threshold_example :
    let b = run (new 2 30) quiet in
    (b.state ≡ closed)
    × (b.failures ≡ streak 0 quiet)
    × (((on_failure b 7).state ≡ opened) ↔ (max 2 1 ≤ streak 0 quiet + 1))
opens_at_threshold_example = opens_at_threshold 2 30 7 quiet (ground arith) (ground arith)
