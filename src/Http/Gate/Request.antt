-- ===== src/Http/Gate/Request.antt =====
-- The entry points of the gate: `get_with` and `post_form` (core/crates/genrl-core/src/http/gate.rs).
-- The parsed URL (`reqwest::Url`) is given, `none` where it does not parse.
use genrl_downloader.Prelude.{
  ℕ, max, Bool, true, not, ◌&&◌, Option, none, some, List, if◌then◌else◌, is_some,
}
use genrl_downloader.Text.{Text}
use genrl_downloader.Error.{Result, ok, err, breaker_open, invalid_url}
use genrl_downloader.Http.Time.{as_secs}
use genrl_downloader.Http.Breaker.{
  CircuitBreaker, State, closed, opened, half_open, Call, on_success, on_failure, Verdict, allow,
  reject,
}
use genrl_downloader.Http.Breaker
use genrl_downloader.Http.Policy.{Service, ServicePolicy, RetryPolicy}
use genrl_downloader.Http.Policy
use genrl_downloader.Http.Cache.{CacheEntry, Row, is_fresh}
use genrl_downloader.Http.Cache
use genrl_downloader.Http.Wire.{Wire}
use genrl_downloader.Http.Gate.{GetOptions, Fetched, Round, Gate}
use genrl_downloader.Http.Gate.Dispatch.{dispatch}

-- What the outside answers to each kind of request.
abbrev pub World : Type 0
World = Wire → ℕ → Round

admit : Gate → CircuitBreaker × Verdict → Result (Unit {0}) × Gate
admit g (b, allow) = (ok tt, record g { breaker = b })
admit g (b, reject wait) =
    (err (breaker_open (Policy.as_str g.service) (max (as_secs wait) 1)), record g { breaker = b })

-- `allow`
unfoldable pub ask_breaker : Gate → Result (Unit {0}) × Gate
unfolding admit
ask_breaker g = admit g (Breaker.check g.breaker g.clock)

-- `would_allow`
pub would_allow : Gate → Gate × Bool
would_allow g =
    let (b, yes_or_no) = Breaker.peek g.breaker g.clock in (record g { breaker = b }, yes_or_no)

unfoldable pub from_cache : Text → CacheEntry → Fetched
from_cache key e = record {
  url = key;
  status = 200;
  body = e.body;
  from_cache = true;
  etag = e.etag;
  set_cookie = none;
}

-- The answer from the cache, or the request with the tag that revalidates a stale row.
use_entry :
    World
    → Text
    → Option ℕ
    → Option RetryPolicy
    → ℕ
    → Gate
    → Option CacheEntry
    → Option (Result Fetched × Gate)
unfolding from_cache
use_entry w key ttl retry unix g none = dispatch (w (Wire.get none)) key ttl retry g
use_entry w key ttl retry unix g (some e) =
    if is_fresh e unix
    then some (ok (from_cache key e), g)
    else dispatch (w (Wire.get e.etag)) key ttl retry g

read_cache :
    World
    → Text
    → GetOptions
    → Option ℕ
    → ℕ
    → Result (Unit {0})
    → Gate
    → Option (Result Fetched × Gate)
unfolding use_entry
read_cache w key opts ttl unix (err e) g = some (err e, g)
read_cache w key opts ttl unix (ok _) g =
    use_entry w key ttl opts.retry unix g (Cache.get g.cache (Policy.as_str g.service) key)

admitted :
    World
    → Text
    → GetOptions
    → ℕ
    → Result (Unit {0})
    → Result (Unit {0}) × Gate
    → Option (Result Fetched × Gate)
unfolding read_cache
admitted w key opts unix read (err e, g) = some (err e, g)
admitted w key opts unix read (ok _, g) =
    let ttl : Option ℕ = elim opts.ttl [ none ↦ g.policy.cache_ttl | some t ↦ some t ] in
    if is_some ttl && not opts.skip_cache
    then read_cache w key opts ttl unix read g
    else dispatch (w (Wire.get none)) key ttl opts.retry g

-- `unix` is the wall clock and `read` whether the row could be read.
unfoldable pub get_with :
    World
    → Text
    → Option Text
    → GetOptions
    → ℕ
    → Result (Unit {0})
    → Gate
    → Option (Result Fetched × Gate)
unfolding admitted ask_breaker
get_with w url none opts unix read g = some (err (invalid_url url), g)
get_with w url (some key) opts unix read g = admitted w key opts unix read (ask_breaker g)

post_admitted :
    World
    → List (Text × Text)
    → Text
    → GetOptions
    → Result (Unit {0}) × Gate
    → Option (Result Fetched × Gate)
post_admitted w fields key opts (err e, g) = some (err e, g)
post_admitted w fields key opts (ok _, g) = dispatch (w (Wire.form fields)) key none opts.retry g

-- Commands are never cached.
unfoldable pub post_form :
    World
    → Text
    → Option Text
    → List (Text × Text)
    → GetOptions
    → Gate
    → Option (Result Fetched × Gate)
unfolding post_admitted ask_breaker
post_form w url none fields opts g = some (err (invalid_url url), g)
post_form w url (some key) fields opts g = post_admitted w fields key opts (ask_breaker g)
