-- ===== src/Http/Gate/Answers.antt =====
-- What a reply leaves behind: the cache replays a success, and a client error ends the call.
use genrl_downloader.Prelude.{
  ℕ, suc, ◌-◌, ◌+◌, ◌≡◌, refl, ◌≢◌, false, Option, none, some, arith, max, unwrap_or,
}
use genrl_downloader.Text.{Text}
use genrl_downloader.Error.{ok, err, status}
use genrl_downloader.Http.Breaker.{CircuitBreaker, closed, opened, half_open}
use genrl_downloader.Http.Breaker
use genrl_downloader.Http.Policy.{RetryPolicy}
use genrl_downloader.Http.Policy
use genrl_downloader.Http.Cache
use genrl_downloader.Http.Wire.{client_error}
use genrl_downloader.Http.Gate.{Gate, Plan, Round}
use genrl_downloader.Http.Gate.Receive.{receive}
use genrl_downloader.Http.Gate.Dispatch.{is_open, waited, sent, loop, dispatch}

closes :
    (b : CircuitBreaker)
    → ((Breaker.on_success b).state ≡ closed) × ((Breaker.on_success b).failures ≡ 0)
unfolding Breaker.on_success
closes b = (refl, refl)

enough : (n : ℕ) → max n 1 ≡ suc (max n 1 - 1)
enough n = omega arith

not_open : (b : CircuitBreaker) → b.state ≢ opened → is_open b.state ≡ false
not_open b h = ground arith

client_pass :
    (rounds : ℕ → Round) (d : Plan) (fuel : ℕ) (g : Gate) (s : ℕ) (body : Option Text)
    → (Breaker.run g.breaker (rounds 1).meanwhile).state ≢ opened
    → (rounds 1).outcome ≡ ok (client_error s body)
    → let h = sent (rounds 1) (waited (rounds 1) g) in
      loop rounds d (suc fuel) 0 g
      ≡ some (err (status s d.key none body), record h { breaker = Breaker.on_success h.breaker })
unfolding loop receive
client_pass rounds d fuel g s body calm reply =
    rw (not_open (Breaker.run g.breaker (rounds 1).meanwhile) calm) (rw (reply, receive))

-- A client error ends the call at its first attempt, whatever the retry policy: if the breaker is
-- not opened while the request waits its turn, the call returns that status as its error, after
-- one request and no sleep, with the cache as it was and the breaker closed and at no failures.
pub client_error_ends :
    (rounds : ℕ → Round) (key : Text) (ttl : Option ℕ) (retry : Option RetryPolicy) (g : Gate)
    (s : ℕ) (body : Option Text)
    → (Breaker.run g.breaker (rounds 1).meanwhile).state ≢ opened
    → (rounds 1).outcome ≡ ok (client_error s body)
    → (g' : Gate) × (dispatch rounds key ttl retry g ≡ some (err (status s key none body), g'))
      × (g'.sent ≡ g.sent + 1)
      × (g'.slept ≡ g.slept)
      × (g'.cache ≡ g.cache)
      × (g'.breaker.state ≡ closed)
      × (g'.breaker.failures ≡ 0)
unfolding dispatch sent Breaker.on_success waited
client_error_ends rounds key ttl retry g s body calm reply =
    let fuel : ℕ = max (unwrap_or retry g.policy.retry).max_attempts 1 - 1 in
    let r = rounds 1 in
    let h = sent r (waited r g) in
    (
      record h { breaker = Breaker.on_success h.breaker },
      rw (enough (unwrap_or retry g.policy.retry).max_attempts)
          (client_pass rounds _ fuel g s body calm reply),
      refl,
      refl,
      refl,
      (closes h.breaker).0,
      (closes h.breaker).1,
    )
