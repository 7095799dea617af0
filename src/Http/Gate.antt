-- ===== src/Http/Gate.antt =====
-- The gate (core/crates/genrl-core/src/http/gate.rs), for one service: each has a breaker, a
-- limiter and its rows of the cache to itself. What other tasks, the network and the clocks do
-- during a call is given, round by round; the limiter shows here as the time that `acquire` takes.
pub mod Receive
pub mod Dispatch
pub mod Request
pub mod Retry
pub mod Answers
pub mod Leak
mod Tests
use genrl_downloader.Prelude.{
  ℕ, zero, suc, ◌+◌, ◌-◌, ◌<◌, min, max, Bool, true, false, not, ◌&&◌, Option, none, some, List, [],
  ◌∷◌, leb, ltb, ◌==◌, if◌then◌else◌, unwrap_or, is_some,
}
use genrl_downloader.Text.{Text, codes}
use genrl_downloader.Error.{
  Error, Result, ok, err, status, rate_limited, breaker_open, body_too_large, invalid_url,
}
use genrl_downloader.Http.Time.{as_secs}
use genrl_downloader.Http.Breaker.{
  CircuitBreaker, State, closed, opened, half_open, Call, on_success, on_failure, Verdict, allow,
  reject,
}
use genrl_downloader.Http.Breaker
use genrl_downloader.Http.Backoff.{delay_for, jitter}
use genrl_downloader.Http.Policy.{Service, ServicePolicy, RetryPolicy}
use genrl_downloader.Http.Policy
use genrl_downloader.Http.Cache.{CacheEntry, Row, is_fresh}
use genrl_downloader.Http.Cache
use genrl_downloader.Http.Wire.{Wire, Outcome, success, limited, server_error, client_error}
use genrl_downloader.Http.Wire

pub record GetOptions : Type 0 where
  pub skip_cache : Bool
  pub ttl : Option ℕ
  pub timeout : Option ℕ
  pub retry : Option RetryPolicy

pub record Fetched : Type 0 where
  pub url : Text
  pub status : ℕ
  pub body : List ℕ
  pub from_cache : Bool
  pub etag : Option Text
  pub set_cookie : Option Text

-- One pass of the loop in `dispatch`, seen from outside. A failed SQLite statement is an error.
pub record Round : Type 0 where
  pub waited : ℕ  -- `limiter.acquire()`
  pub meanwhile : List Call  -- other tasks on the breaker, until the check after `acquire`
  pub outcome : Result Outcome  -- `send`
  pub took : ℕ
  pub during : List Call  -- other tasks, until the reply is recorded
  pub between : List Call  -- other tasks, between the record and the check after it
  pub unix : ℕ  -- the wall clock, in seconds
  pub stored : Result (Unit {0})  -- of `cache::put` and `cache::touch`
  pub read : Result (Unit {0})  -- of `cache::get`
  pub factor : ℕ  -- the draw of `jitter`

pub record Gate : Type 0 where
  pub service : Service
  pub policy : ServicePolicy
  pub breaker : CircuitBreaker
  pub cache : List Row
  pub clock : ℕ  -- the monotonic clock
  pub sent : ℕ  -- requests sent so far
  pub slept : ℕ  -- time slept between attempts so far

-- The arguments and variables of `dispatch` that stay fixed in its loop.
pub record Plan : Type 0 where
  pub key : Text
  pub ttl : Option ℕ
  pub retry : RetryPolicy
  pub started : ℕ

pub data Attempt : Type 0 where
  -- `return`
  finish : Result Fetched → Attempt
  -- `last_err` and `retry_after`
  again : Error → Option ℕ → Attempt
