-- ===== src/Http/Gate/Retry.antt =====
-- The retry loop ends, within its attempts and its waiting time.
use native.Mathlib.Nat.{le_trans}
use genrl_downloader.Prelude.{
  ℕ, zero, suc, ◌+◌, ◌-◌, ◌≤◌, ◌<◌, min, max, ◌≡◌, refl, true, false, Option, none, some, arith,
  ltb, leb, Bool-cases, inl, inr, ◌⊎◌, unwrap_or,
}
use genrl_downloader.Text.{Text}
use genrl_downloader.Error.{Error, Result, ok, err}
use genrl_downloader.Http.Backoff.Laws.{delay_for_total}
use genrl_downloader.Http.Policy.{RetryPolicy}
use genrl_downloader.Http.Wire.{Outcome, success, limited, server_error, client_error}
use genrl_downloader.Http.Gate.{Fetched, Round, Gate, Plan, Attempt, finish, again}
use genrl_downloader.Http.Gate.Receive.{receive}
use genrl_downloader.Http.Gate.Dispatch.{
  is_open, open_error, next_delay, after_failure, after_reply, waited, sent, loop, dispatch,
}
use genrl_downloader.Http.Breaker

-- A step that leaves the clock and the counters alone.
record Keeps (g g' : Gate) : Type 0 where
  clock : g'.clock ≡ g.clock
  sent : g'.sent ≡ g.sent
  slept : g'.slept ≡ g.slept

receive-Keeps : (d : Plan) (r : Round) (g : Gate) (o : Result Outcome) → Keeps g (receive d r g o).0
unfolding receive
receive-Keeps d r g (ok (success s body etag cookie)) = ground arith
receive-Keeps d r g (ok (limited after)) = ground arith
receive-Keeps d r g (ok (server_error s body)) = ground arith
receive-Keeps d r g (ok (client_error s body)) = ground arith
receive-Keeps d r g (err e) = ground arith

next_delay_total :
    (retry : RetryPolicy) (attempt factor : ℕ) (after : Option ℕ)
    → (delay : ℕ) × (next_delay retry attempt factor after ≡ some delay)
unfolding next_delay
next_delay_total retry attempt factor (some d) = (min d retry.max_delay, refl)
next_delay_total retry attempt factor none =
    let (d, e) = delay_for_total attempt retry.schedule in rw (e, next_delay) (_, refl)

-- What was slept fits the time since the start, and the retry policy's total.
record IsPaced (d : Plan) (g : Gate) : Type 0 where
  passed : g.slept + d.started ≤ g.clock
  total : g.slept ≤ d.retry.max_total_wait

after_failure_cases :
    (d : Plan) (attempt factor : ℕ) (g : Gate) (e : Error) (after : Option ℕ)
    → IsPaced d g
    → (after_failure d attempt factor g e after ≡ some (false, g))
      ⊎ ((g' : Gate) × (after_failure d attempt factor g e after ≡ some (true, g'))
          × IsPaced d g'
          × (g'.sent ≡ g.sent)
          × (attempt < d.retry.max_attempts))
unfolding after_failure
after_failure_cases d attempt factor g e after p =
    let (delay, eq) = next_delay_total d.retry attempt factor after in
    elim (Bool-cases (is_open g.breaker.state)) [
      | inl o ↦ inl (rw o)
      | inr o ↦ elim (Bool-cases (leb d.retry.max_attempts attempt)) [
        | inl m ↦ inl (rw (o, m))
        | inr m ↦ elim (Bool-cases (ltb d.retry.max_total_wait ((g.clock - d.started) + delay))) [
          | inl t ↦ inl (rw (o, m, eq, after_failure, t))
          | inr t ↦ inr (
            record g { clock = g.clock + delay; slept = g.slept + delay },
            rw (o, m, eq, after_failure, t),
            record { passed = ground arith; total = ground arith },
            refl,
            ground arith,
          )
        ]
      ]
    ]

-- The loop returned, having slept at most the policy's total and sent at most `limit` requests.
abbrev Returned : Plan → ℕ → Option (Result Fetched × Gate) → Type 0
Returned d limit o =
    (res : Result Fetched) × (g : Gate) × (o ≡ some (res, g))
    × (g.slept ≤ d.retry.max_total_wait)
    × (g.sent ≤ limit)

after_reply-Returned :
    (rest : Gate → Option (Result Fetched × Gate)) (d : Plan) (attempt limit : ℕ) (r : Round)
    (g : Gate) (a : Attempt)
    → IsPaced d g
    → g.sent ≤ limit
    → ((g' : Gate)
        → IsPaced d g'
        → g'.sent ≡ g.sent
        → attempt < d.retry.max_attempts
        → Returned d limit (rest g'))
    → Returned d limit (after_reply rest d attempt r (g, a))
unfolding after_reply
after_reply-Returned rest d attempt limit r g (finish res) p s go = (res, g, refl, p.total, s)
after_reply-Returned rest d attempt limit r g (again e after) p s go =
    let g1 : Gate = record g { breaker = Breaker.run g.breaker r.between } in
    elim (after_failure_cases d attempt r.factor g1 e after
      (record { passed = p.passed; total = p.total })) [
        | inl stop ↦ rw (stop, after_reply) (err e, g1, refl, p.total, s)
        | inr (g', eq, p', same, more) ↦ rw (eq, after_reply) (go g' p' same more)
      ]

Returned-mono :
    (d : Plan) (m n : ℕ) (o : Option (Result Fetched × Gate))
    → m ≤ n
    → Returned d m o
    → Returned d n o
Returned-mono d m n o h (res, g, e, t, s) = (res, g, e, t, le_trans s h)

loop-Returned :
    (rounds : ℕ → Round) (d : Plan) (fuel attempt : ℕ) (g : Gate)
    → IsPaced d g
    → 0 < fuel
    → max d.retry.max_attempts 1 ≤ attempt + fuel
    → Returned d (g.sent + fuel) (loop rounds d fuel attempt g)
unfolding loop
loop-Returned rounds d zero attempt g p pos enough = absurd (omega arith)
loop-Returned rounds d (suc fuel) attempt g p pos enough =
    let r = rounds (suc attempt) in
    let g' = waited r g in
    let h = sent r g' in
    let k = receive-Keeps d r h r.outcome in
    elim (Bool-cases (is_open g'.breaker.state)) [
      | inl o ↦ rw o (err (open_error g'), g', refl, p.total, omega arith)
      | inr o ↦ rw o (
          after_reply-Returned (loop rounds d fuel (suc attempt)) d (suc attempt)
            (g.sent + suc fuel) r (receive d r h r.outcome).0 (receive d r h r.outcome).1
            (record { passed = omega (arith, k.clock, k.slept); total = omega (arith, k.slept) })
            (omega (arith, k.sent))
            (λ g'' p'' same more.
              Returned-mono d (g''.sent + fuel) (g.sent + suc fuel) _ (omega (arith, same, k.sent))
                (loop-Returned rounds d fuel (suc attempt) g'' p'' (omega arith) (omega arith))))
    ]

-- One call of the gate's loop, whatever the network, the other tasks and the draws do, returns: it
-- neither panics nor runs on. Since its start it has sent at most `max_attempts` requests (one, if
-- that is 0) and slept between them at most `max_total_wait`, of the policy that it was given or
-- else the service's.
pub dispatch_bounded :
    (rounds : ℕ → Round) (key : Text) (ttl : Option ℕ) (retry : Option RetryPolicy) (g : Gate)
    → g.slept ≡ 0
    → let policy = unwrap_or retry g.policy.retry in
      (res : Result Fetched) × (g' : Gate) × (dispatch rounds key ttl retry g ≡ some (res, g'))
      × (g'.slept ≤ policy.max_total_wait)
      × (g'.sent ≤ g.sent + max policy.max_attempts 1)
unfolding dispatch
dispatch_bounded rounds key ttl retry g z =
    loop-Returned rounds _ _ 0 g (record { passed = omega arith; total = omega arith })
      (omega arith) (omega arith)
