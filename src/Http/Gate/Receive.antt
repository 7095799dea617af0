-- ===== src/Http/Gate/Receive.antt =====
-- What `dispatch` does with one reply: the breaker, the cache and the answer
-- (core/crates/genrl-core/src/http/gate.rs).
use genrl_downloader.Prelude.{ℕ, true, false, Option, none, some, List, ◌==◌, if◌then◌else◌}
use genrl_downloader.Text.{Text}
use genrl_downloader.Error.{Error, Result, ok, err, status, rate_limited, body_too_large}
use genrl_downloader.Http.Time.{as_secs}
use genrl_downloader.Http.Breaker.{on_success, on_failure}
use genrl_downloader.Http.Policy.{Service, ServicePolicy, RetryPolicy}
use genrl_downloader.Http.Policy
use genrl_downloader.Http.Cache.{CacheEntry, Row, is_fresh}
use genrl_downloader.Http.Cache
use genrl_downloader.Http.Wire.{Outcome, success, limited, server_error, client_error}
use genrl_downloader.Http.Gate.{Round, Gate, Plan, Attempt, finish, again}

fetched : Plan → ℕ → List ℕ → Option Text → Option Text → Attempt
fetched d s body etag cookie = finish (
    ok (record {
      url = d.key;
      status = s;
      body = body;
      from_cache = false;
      etag = etag;
      set_cookie = cookie;
    }))

-- After a `touch` that succeeded: the stored body, if the row is there.
refreshed : Plan → List ℕ → Option Text → Option Text → Option CacheEntry → Attempt
unfolding fetched
refreshed d body etag cookie (some e) = finish (
    ok (record {
      url = d.key;
      status = 304;
      body = e.body;
      from_cache = true;
      etag = etag;
      set_cookie = none;
    }))
refreshed d body etag cookie none = fetched d 304 body etag cookie

touch_and_read :
    Plan
    → Round
    → Gate
    → List ℕ
    → Option Text
    → Option Text
    → ℕ
    → Result (Unit {0})
    → Result (Unit {0})
    → Gate × Attempt
unfolding refreshed
touch_and_read d r g body etag cookie ttl (err e) read = (g, finish (err e))
touch_and_read d r g body etag cookie ttl (ok _) (err e) = (
  record g { cache = Cache.touch g.cache (Policy.as_str g.service) d.key r.unix (as_secs ttl) },
  finish (err e),
)
touch_and_read d r g body etag cookie ttl (ok _) (ok _) =
    let cache' = Cache.touch g.cache (Policy.as_str g.service) d.key r.unix (as_secs ttl) in
    (
      record g { cache = cache' },
      refreshed d body etag cookie (Cache.get cache' (Policy.as_str g.service) d.key),
    )

not_modified : Plan → Round → Gate → List ℕ → Option Text → Option Text → Option ℕ → Gate × Attempt
unfolding touch_and_read fetched
not_modified d r g body etag cookie none = (g, fetched d 304 body etag cookie)
not_modified d r g body etag cookie (some ttl) =
    touch_and_read d r g body etag cookie ttl r.stored r.read

store :
    Plan
    → Round
    → Gate
    → ℕ
    → List ℕ
    → Option Text
    → Option Text
    → Option ℕ
    → Result (Unit {0})
    → Gate × Attempt
unfolding fetched
store d r g s body etag cookie none stored = (g, fetched d s body etag cookie)
store d r g s body etag cookie (some ttl) (err e) = (g, finish (err e))
store d r g s body etag cookie (some ttl) (ok _) = (
  record g {
    cache =
        Cache.put g.cache (Policy.as_str g.service) d.key
          (record { body = body; etag = etag; fetched_at = r.unix; ttl = as_secs ttl });
  },
  fetched d s body etag cookie,
)

-- `record_success`
succeeded : Gate → Gate
succeeded g = record g { breaker = on_success g.breaker }

-- `record_failure`
failed : Gate → Gate
failed g = record g { breaker = on_failure g.breaker g.clock }

received_error : Gate → Error → Gate × Attempt
unfolding succeeded failed
received_error g (body_too_large u got cap) = (succeeded g, finish (err (body_too_large u got cap)))
received_error g e = (failed g, again e none)

-- The `match self.send(…)`.
unfoldable pub receive : Plan → Round → Gate → Result Outcome → Gate × Attempt
unfolding not_modified store received_error
receive d r g (ok (success s body etag cookie)) =
    if s == 304
    then not_modified d r (succeeded g) body etag cookie d.ttl
    else store d r (succeeded g) s body etag cookie d.ttl r.stored
receive d r g (ok (limited after)) =
    (failed g, again (rate_limited (Policy.as_str g.service) after) after)
receive d r g (ok (server_error s body)) = (failed g, again (status s d.key none body) none)
receive d r g (ok (client_error s body)) = (succeeded g, finish (err (status s d.key none body)))
receive d r g (err e) = received_error g e
