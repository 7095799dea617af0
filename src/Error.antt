-- ===== src/Error.antt =====
-- The error type of core/crates/genrl-core/src/error.rs.
use genrl_downloader.Prelude.{ℕ, Bool, true, false, ◌&&◌, ◌||◌, Option, leb}
use genrl_downloader.Text.{Text}
use genrl_downloader.Models.JobState.{JobState}

-- What the code asks a `reqwest::Error`.
pub record TransportError : Type 0 where
  pub connect : Bool
  pub timed_out : Bool
  pub request : Bool

pub data Error : Type 0 where
  db : Text → Error
  io : Text → Error
  json : Text → Error
  http : TransportError → Error
  -- url, timeout_ms
  timeout : Text → ℕ → Error
  -- status, url, retry_after, body
  status : ℕ → Text → Option ℕ → Option Text → Error
  -- service, retry_after
  rate_limited : Text → Option ℕ → Error
  -- service, retry_in_secs
  breaker_open : Text → ℕ → Error
  -- url, got, cap
  body_too_large : Text → ℕ → ℕ → Error
  invalid_url : Text → Error
  auth : Text → Text → Error
  not_found : Text → Error
  -- from, to, job_id
  illegal_transition : JobState → JobState → ℕ → Error
  other : Text → Error

-- Worth retrying later.
unfoldable pub is_transient : Error → Bool
is_transient (timeout _ _) = true
is_transient (rate_limited _ _) = true
is_transient (breaker_open _ _) = true
is_transient (status s _ _ _) = leb 500 s && leb s 599
is_transient (http e) = e.connect || e.timed_out || e.request
is_transient _ = false

unfoldable pub is_timeout : Error → Bool
is_timeout (timeout _ _) = true
is_timeout (http e) = e.timed_out
is_timeout _ = false

unfoldable pub is_connection_failure : Error → Bool
is_connection_failure (timeout _ _) = true
is_connection_failure (http e) = e.connect || e.timed_out
is_connection_failure _ = false

pub data Result {ℓ} (A : Type ℓ) : Type ℓ where
  ok : A → Result A
  err : Error → Result A

infixl 5 ◌>>=◌
abbrev pub ◌>>=◌ {ℓ κ} : {A : Type ℓ} {B : Type κ} → Result A → (A → Result B) → Result B
ok a >>= f = f a
err e >>= f = err e
