-- ===== src/Http/Wire.antt =====
-- One request and its reply (core/crates/genrl-core/src/http/wire.rs, `Gate::send` of gate.rs).
-- What comes back from the network (reqwest) is an argument.
pub mod Laws
use genrl_downloader.Prelude.{
  ℕ, ◌+◌, ◌/◌, Bool, true, false, Option, none, some, List, [], ◌∷◌, ◌++◌, leb, ltb, length, ◌==◌,
  ◌||◌, ◌&&◌, if◌then◌else◌,
}
use genrl_downloader.Text.{Text}
use genrl_downloader.Error.{Error, Result, ok, err, TransportError, http, timeout, body_too_large}

pub data Wire : Type 0 where
  -- `if_none_match`
  get : Option Text → Wire
  form : List (Text × Text) → Wire

pub data Outcome : Type 0 where
  -- status, body, etag, set_cookie
  success : ℕ → List ℕ → Option Text → Option Text → Outcome
  -- retry_after
  limited : Option ℕ → Outcome
  -- status, body
  server_error : ℕ → Option Text → Outcome
  client_error : ℕ → Option Text → Outcome

-- What `chunk()` gives: the body's chunks, and an error in place of the rest.
pub data Chunks : Type 0 where
  end : Chunks
  chunk : List ℕ → Chunks → Chunks
  broken : TransportError → Chunks

abbrev pub as_millis : ℕ → ℕ
as_millis d = d / 1_000_000

transport : Text → ℕ → TransportError → Error
transport url limit e = if e.timed_out then timeout url (as_millis limit) else http e

read_from : List ℕ → Chunks → ℕ → Text → ℕ → Result (List ℕ)
unfolding transport
read_from body end cap url limit = ok body
read_from body (broken e) cap url limit = err (transport url limit e)
read_from body (chunk bytes rest) cap url limit =
    let more = read_from (body ++ bytes) rest cap url limit in
    if ltb cap (length body + length bytes)
    then err (body_too_large url (length body + length bytes) cap)
    else more

pub read_body : Chunks → ℕ → Text → ℕ → Result (List ℕ)
unfolding read_from
read_body chunks cap url limit = read_from [] chunks cap url limit

pub record Response : Type 0 where
  pub status : ℕ
  pub etag : Option Text
  pub set_cookie : Option Text
  pub retry_after : Option ℕ  -- `parse_retry_after` of the header
  pub chunks : Chunks

-- `read_body(…).await.ok()`, and `String::from_utf8`, which is given.
body_text : (List ℕ → Option Text) → Result (List ℕ) → Option Text
body_text utf8 (ok bytes) = utf8 bytes
body_text utf8 (err e) = none

succeed : Response → Result (List ℕ) → Result Outcome
succeed r (ok body) = ok (success r.status body r.etag r.set_cookie)
succeed r (err e) = err e

-- The `match status` of `send`.
pub classify : (List ℕ → Option Text) → Text → ℕ → ℕ → Response → Result Outcome
unfolding read_body body_text succeed
classify utf8 url limit cap r =
    let body = read_body r.chunks cap url limit in
    if leb 200 r.status && leb r.status 299
    then succeed r body
    else if r.status == 304
    then ok (success r.status [] r.etag r.set_cookie)
    else if r.status == 429
    then ok (limited r.retry_after)
    else if r.status == 408 || r.status == 425 || (leb 500 r.status && leb r.status 599)
    then ok (server_error r.status (body_text utf8 body))
    else ok (client_error r.status (body_text utf8 body))

-- What the network answers: a response, or a transport error from `req.send()`.
pub data Reply : Type 0 where
  answered : Response → Reply
  lost : TransportError → Reply

pub send : (List ℕ → Option Text) → Text → ℕ → ℕ → Reply → Result Outcome
unfolding classify transport
send utf8 url limit cap (lost e) = err (transport url limit e)
send utf8 url limit cap (answered r) = classify utf8 url limit cap r
