-- ===== src/Http/Breaker.antt =====
-- The circuit breaker (core/crates/genrl-core/src/http/breaker.rs). A method that takes
-- `&mut self` returns the new breaker beside its result.
pub mod Invariant
pub mod Probe
pub mod Trip
mod Tests
use genrl_downloader.Prelude.{
  ℕ, ◌+◌, ◌-◌, min, max, Bool, true, false, not, Option, none, some, List, [], ◌∷◌, leb,
  if◌then◌else◌,
}
use genrl_downloader.Http.Time.{from_millis, u32_max}

-- `Closed`, `Open` (a reserved word here) and `HalfOpen`.
pub data State : Type 0 where
  closed opened half_open : State

pub data Verdict : Type 0 where
  allow : Verdict
  reject : ℕ → Verdict

pub record CircuitBreaker : Type 0 where
  pub threshold : ℕ  -- u32
  pub cooldown : ℕ
  pub failures : ℕ  -- u32
  pub state : State
  pub opened_at : Option ℕ
  pub probe_in_flight : Bool

unfoldable pub new : ℕ → ℕ → CircuitBreaker
new threshold cooldown = record {
  threshold = max threshold 1;
  cooldown = cooldown;
  failures = 0;
  state = closed;
  opened_at = none;
  probe_in_flight = false;
}

check_open : Option ℕ → CircuitBreaker → ℕ → CircuitBreaker × Verdict
check_open none b now = (b, allow)
check_open (some at) b now =
    if leb b.cooldown (now - at)
    then (record b { state = half_open; probe_in_flight = true }, allow)
    else (b, reject (b.cooldown - (now - at)))

check_state : State → CircuitBreaker → ℕ → CircuitBreaker × Verdict
unfolding check_open
check_state closed b now = (b, allow)
check_state opened b now = check_open b.opened_at b now
check_state half_open b now =
    if b.probe_in_flight
    then (b, reject (from_millis 250))
    else (record b { probe_in_flight = true }, allow)

-- May a request go out right now?
unfoldable pub check : CircuitBreaker → ℕ → CircuitBreaker × Verdict
unfolding check_state
check b now = check_state b.state b now

peek_open : Option ℕ → CircuitBreaker → ℕ → CircuitBreaker × Bool
peek_open none b now = (b, false)
peek_open (some at) b now =
    if leb b.cooldown (now - at) then (record b { state = half_open }, true) else (b, false)

peek_state : State → CircuitBreaker → ℕ → CircuitBreaker × Bool
unfolding peek_open
peek_state closed b now = (b, true)
peek_state opened b now = peek_open b.opened_at b now
peek_state half_open b now = (b, not b.probe_in_flight)

-- Would `check` allow a request right now, without consuming the probe?
unfoldable pub peek : CircuitBreaker → ℕ → CircuitBreaker × Bool
unfolding peek_state
peek b now = peek_state b.state b now

unfoldable pub on_success : CircuitBreaker → CircuitBreaker
on_success b = record b { failures = 0; state = closed; opened_at = none; probe_in_flight = false }

-- `saturating_add(1)` on u32.
count_failure : CircuitBreaker → ℕ → CircuitBreaker
count_failure b now =
    let f = min (b.failures + 1) u32_max in
    if leb b.threshold f
    then record b { failures = f; probe_in_flight = false; state = opened; opened_at = some now }
    else record b { failures = f; probe_in_flight = false }

fail_state : State → CircuitBreaker → ℕ → CircuitBreaker
unfolding count_failure
fail_state half_open b now = record b {
  failures = b.threshold;
  probe_in_flight = false;
  state = opened;
  opened_at = some now;
}
fail_state _ b now = count_failure b now

unfoldable pub on_failure : CircuitBreaker → ℕ → CircuitBreaker
unfolding fail_state
on_failure b now = fail_state b.state b now

-- The calls that a task may make on the shared breaker, each under its lock.
pub data Call : Type 0 where
  checks peeks fails : ℕ → Call
  succeeds : Call

pub step : CircuitBreaker → Call → CircuitBreaker
unfolding check peek on_failure on_success
step b (checks now) = (check b now).0
step b (peeks now) = (peek b now).0
step b (fails now) = on_failure b now
step b succeeds = on_success b

unfoldable pub run : CircuitBreaker → List Call → CircuitBreaker
run b [] = b
run b (c ∷ cs) = run (step b c) cs

abbrev pub verdict_count : Verdict → ℕ
verdict_count allow = 1
verdict_count (reject _) = 0

-- How many of a sequence of calls are checks that let a request through.
abbrev pub allowed : CircuitBreaker → Call → ℕ
allowed b (checks now) = verdict_count (check b now).1
allowed b _ = 0

pub allowed_in : CircuitBreaker → List Call → ℕ
unfolding check
allowed_in b [] = 0
allowed_in b (c ∷ cs) = allowed b c + allowed_in (step b c) cs
