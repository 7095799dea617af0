-- ===== src/Http/Gate/Dispatch.antt =====
-- The retry loop of `dispatch` (core/crates/genrl-core/src/http/gate.rs).
use genrl_downloader.Prelude.{
  ℕ, zero, suc, ◌+◌, ◌-◌, min, max, Bool, true, false, Option, none, some, leb, ltb, if◌then◌else◌,
  unwrap_or,
}
use genrl_downloader.Text.{Text}
use genrl_downloader.Error.{Error, Result, err, breaker_open}
use genrl_downloader.Http.Time.{as_secs}
use genrl_downloader.Http.Breaker.{
  CircuitBreaker, State, closed, opened, half_open, Call, on_success, on_failure, Verdict, allow,
  reject,
}
use genrl_downloader.Http.Breaker
use genrl_downloader.Http.Backoff.{delay_for, jitter}
use genrl_downloader.Http.Policy.{Service, ServicePolicy, RetryPolicy}
use genrl_downloader.Http.Policy
use genrl_downloader.Http.Gate.{Fetched, Round, Gate, Plan, Attempt, finish, again}
use genrl_downloader.Http.Gate.Receive.{receive}

abbrev pub is_open : State → Bool
is_open opened = true
is_open _ = false

unfoldable pub open_error : Gate → Error
open_error g = breaker_open (Policy.as_str g.service) (as_secs g.policy.breaker_cooldown)

-- `none` would be the panic of `delay_for`.
unfoldable pub next_delay : RetryPolicy → ℕ → ℕ → Option ℕ → Option ℕ
next_delay retry attempt factor (some d) = some (min d retry.max_delay)
next_delay retry attempt factor none = elim (delay_for attempt retry.schedule) [
  | none ↦ none
  | some d ↦ some (min (jitter factor d) retry.max_delay)
]

-- The rest of a pass after a failed attempt: `false` returns the error, `true` has slept and goes round.
-- `none` is the panic.
unfoldable pub after_failure : Plan → ℕ → ℕ → Gate → Error → Option ℕ → Option (Bool × Gate)
unfolding next_delay
after_failure d attempt factor g e after =
    if is_open g.breaker.state
    then some (false, g)
    else if leb d.retry.max_attempts attempt
    then some (false, g)
    else elim (next_delay d.retry attempt factor after) [
      | none ↦ none
      | some delay ↦
          if ltb d.retry.max_total_wait ((g.clock - d.started) + delay)
          then some (false, g)
          else some (true, record g { clock = g.clock + delay; slept = g.slept + delay })
    ]

resume :
    (Gate → Option (Result Fetched × Gate))
    → Error
    → Option (Bool × Gate)
    → Option (Result Fetched × Gate)
resume rest e none = none
resume rest e (some (false, g)) = some (err e, g)
resume rest e (some (true, g)) = rest g

unfoldable pub after_reply :
    (Gate → Option (Result Fetched × Gate))
    → Plan
    → ℕ
    → Round
    → Gate × Attempt
    → Option (Result Fetched × Gate)
unfolding resume after_failure
after_reply rest d attempt r (g, finish result) = some (result, g)
after_reply rest d attempt r (g, again e after) = resume rest e (
    after_failure d attempt r.factor (record g { breaker = Breaker.run g.breaker r.between }) e
      after)

unfoldable pub waited : Round → Gate → Gate
waited r g = record g { clock = g.clock + r.waited; breaker = Breaker.run g.breaker r.meanwhile }

unfoldable pub sent : Round → Gate → Gate
sent r g = record g {
  clock = g.clock + r.took;
  breaker = Breaker.run g.breaker r.during;
  sent = g.sent + 1;
}

-- The loop of `dispatch` on fuel, after `attempt` attempts. `none` is no more fuel, or a panic.
unfoldable pub loop : (ℕ → Round) → Plan → ℕ → ℕ → Gate → Option (Result Fetched × Gate)
unfolding after_reply waited sent
loop rounds d zero attempt g = none
loop rounds d (suc fuel) attempt g =
    let rest = loop rounds d fuel (suc attempt) in
    let r = rounds (suc attempt) in
    let g' = waited r g in
    if is_open g'.breaker.state
    then some (err (open_error g'), g')
    else after_reply rest d (suc attempt) r (receive d r (sent r g') r.outcome)

-- The fuel is `max_attempts`, and at least 1.
unfoldable pub dispatch :
    (ℕ → Round) → Text → Option ℕ → Option RetryPolicy → Gate → Option (Result Fetched × Gate)
dispatch rounds key ttl retry g =
    let policy = unwrap_or retry g.policy.retry in
    loop rounds (record { key = key; ttl = ttl; retry = policy; started = g.clock })
      (max policy.max_attempts 1) 0 g
