-- ===== src/Http/Gate/Tests.antt =====
-- The gate at concrete calls (core/crates/genrl-core/src/http/gate.rs).
use genrl_downloader.Prelude.{
  ℕ, ◌+◌, ◌≤◌, max, ◌≡◌, ◌≢◌, refl, true, false, none, some, List, [], ◌∷◌, arith, unwrap_or, inr,
  if◌then◌else◌, ◌==◌,
}
use genrl_downloader.Text.{Text, codes, text_eq}
use genrl_downloader.Error.{Result, ok, err, breaker_open}
use genrl_downloader.Http.Time.{from_secs}
use genrl_downloader.Http.Breaker.{CircuitBreaker, opened}
use genrl_downloader.Http.Breaker
use genrl_downloader.Http.Policy.{Service, for_service, mal}
use genrl_downloader.Http.Policy
use genrl_downloader.Http.Cache.{CacheEntry, Row, is_fresh}
use genrl_downloader.Http.Cache
use genrl_downloader.Http.Wire.{Outcome, success, server_error, client_error}
use genrl_downloader.Http.Gate.{GetOptions, Fetched, Round, Gate, Plan}
use genrl_downloader.Http.Gate.Receive.{receive}
use genrl_downloader.Http.Gate.Dispatch.{dispatch}
use genrl_downloader.Http.Gate.Request.{World, get_with, post_form, from_cache}
use genrl_downloader.Http.Gate.Retry.{dispatch_bounded}
use genrl_downloader.Http.Gate.Leak.{cache_hit_leaks_trial}

abbrev quiet : Result Outcome → Round
quiet reply = record {
  waited = 0;
  meanwhile = [];
  outcome = reply;
  took = 1_000_000;
  during = [];
  between = [];
  unix = 5000;
  stored = ok tt;
  read = ok tt;
  factor = 0;
}

-- The service answers 503 to the first two requests and then 404.
abbrev flaky : ℕ → Round
flaky n = if n == 3 then quiet (ok (client_error 404 none)) else quiet (ok (server_error 503 none))

abbrev idle : Gate
idle = record {
  service = mal;
  policy = for_service mal;
  breaker = Breaker.new 5 (from_secs 900);
  cache = [];
  clock = from_secs 100;
  sent = 0;
  slept = 0;
}

abbrev key : Text
key = codes "/anime/1"

-- The same gate after an outage that is over, with the page in the cache.
abbrev page : CacheEntry
page = record { body = 1 ∷ 2 ∷ []; etag = none; fetched_at = 4990; ttl = 1800 }

abbrev recovering : Gate
recovering = record idle {
  breaker = record {
    threshold = 5;
    cooldown = from_secs 900;
    state = opened;
    failures = 5;
    opened_at = some 0;
    probe_in_flight = false;
  };
  cache = record { service = codes "mal"; key = key; entry = page } ∷ [];
  clock = from_secs 900;
}

abbrev options : GetOptions
options = record { skip_cache = false; ttl = none; timeout = none; retry = none }

dispatch_bounded_example :
    let policy = unwrap_or none idle.policy.retry in
    (res : Result Fetched) × (g' : Gate) × (dispatch flaky key none none idle ≡ some (res, g'))
    × (g'.slept ≤ policy.max_total_wait)
    × (g'.sent ≤ idle.sent + max policy.max_attempts 1)
dispatch_bounded_example = dispatch_bounded flaky key none none idle refl

abbrev missing : ℕ → Round
missing _ = quiet (ok (client_error 404 none))

calm : (Breaker.run idle.breaker (missing 1).meanwhile).state ≢ opened
unfolding Breaker.run Breaker.new
calm = ground arith

fresh_page : is_fresh page 5000 ≡ true
unfolding is_fresh
fresh_page = refl

found_page : Cache.get recovering.cache (Policy.as_str mal) key ≡ some page
unfolding Policy.as_str Cache.get text_eq
found_page = refl

abbrev outside : World
outside _ = flaky

cache_hit_leaks_trial_example :
    (g' : Gate) × (get_with outside key (some key) options 5000 (ok tt) recovering
      ≡ some (ok (from_cache key page), g'))
    × ((later : Gate) (w' : World) (url' key' : Text) (fields : List (Text × Text))
          (opts' : GetOptions) (unix' : ℕ) (read : Result (Unit {0}))
        → later.breaker ≡ g'.breaker
        → let refused = breaker_open (Policy.as_str later.service) 1 in
          (get_with w' url' (some key') opts' unix' read later ≡ some (err refused, later))
          × (post_form w' url' (some key') fields opts' later ≡ some (err refused, later)))
cache_hit_leaks_trial_example =
    cache_hit_leaks_trial outside key key options 5000 recovering page
      (inr (0, refl, refl, ground arith)) (ground arith) found_page fresh_page

abbrev plan : Plan
plan = record {
  key = key;
  ttl = some (from_secs 1800);
  retry = idle.policy.retry;
  started = idle.clock;
}

abbrev answer : Round
answer = quiet (ok (success 200 (1 ∷ 2 ∷ []) none none))

abbrev answered : Gate
answered = (receive plan answer idle (ok (success 200 (1 ∷ 2 ∷ []) none none))).0

abbrev afterwards : Gate
afterwards = record idle { cache = answered.cache }
