-- ===== src/Http/Gate/Leak.antt =====
-- A request that the cache answers never reports on the trial that it was let through as.
use genrl_downloader.Prelude.{
  ℕ, ◌-◌, ◌≤◌, ◌≡◌, refl, true, false, ◌⊎◌, some, List, arith, inl, inr, is_some,
}
use genrl_downloader.Text.{Text}
use genrl_downloader.Error.{Result, ok, err, breaker_open}
use genrl_downloader.Http.Breaker.{CircuitBreaker, opened, half_open}
use genrl_downloader.Http.Breaker
use genrl_downloader.Http.Breaker.Probe.{Busy}
use genrl_downloader.Http.Policy
use genrl_downloader.Http.Cache.{CacheEntry, is_fresh}
use genrl_downloader.Http.Cache
use genrl_downloader.Http.Gate.{GetOptions, Gate}
use genrl_downloader.Http.Gate.Request.{World, get_with, post_form, from_cache}

-- The breaker would make the next request its trial.
abbrev pub TrialDue : CircuitBreaker → ℕ → Type 0
TrialDue b now =
    ((b.state ≡ half_open) × (b.probe_in_flight ≡ false))
    ⊎ ((at : ℕ) × (b.state ≡ opened) × (b.opened_at ≡ some at) × (b.cooldown ≤ now - at))

claims :
    (b : CircuitBreaker) (now : ℕ)
    → TrialDue b now
    → (b' : CircuitBreaker) × (Breaker.check b now ≡ (b', Breaker.allow)) × Busy b'
unfolding Breaker.check
claims b now (inl h) = (record b { probe_in_flight = true }, ground arith, (ground arith, refl))
claims b now (inr h) =
    (record b { state = half_open; probe_in_flight = true }, ground arith, (refl, refl))

-- The options let the cache answer.
abbrev pub UsesCache : Gate → GetOptions → Type 0
UsesCache g opts =
    (opts.skip_cache ≡ false) × ((is_some opts.ttl ≡ true) ⊎ (is_some g.policy.cache_ttl ≡ true))

blocked :
    (later : Gate) (w : World) (url key : Text) (fields : List (Text × Text)) (opts : GetOptions)
    (unix : ℕ) (read : Result (Unit {0}))
    → Busy later.breaker
    → let refused = breaker_open (Policy.as_str later.service) 1 in
      (get_with w url (some key) opts unix read later ≡ some (err refused, later))
      × (post_form w url (some key) fields opts later ≡ some (err refused, later))
unfolding get_with post_form Breaker.check
blocked later w url key fields opts unix read h = ground arith

-- Where the breaker is due for its trial and the cache holds a fresh row, `get_with` answers from
-- the row and leaves the trial claimed; from then on, for as long as the breaker is as it left it,
-- every request of the service, at any time and with any options, is refused with `BreakerOpen`
-- and leaves the breaker so: a cache hit after an outage locks the service out.
pub cache_hit_leaks_trial :
    (w : World) (url key : Text) (opts : GetOptions) (unix : ℕ) (g : Gate) (e : CacheEntry)
    → TrialDue g.breaker g.clock
    → UsesCache g opts
    → Cache.get g.cache (Policy.as_str g.service) key ≡ some e
    → is_fresh e unix ≡ true
    → (g' : Gate) × (get_with w url (some key) opts unix (ok tt) g
        ≡ some (ok (from_cache key e), g'))
      × ((later : Gate) (w' : World) (url' key' : Text) (fields : List (Text × Text))
            (opts' : GetOptions) (unix' : ℕ) (read : Result (Unit {0}))
          → later.breaker ≡ g'.breaker
          → let refused = breaker_open (Policy.as_str later.service) 1 in
            (get_with w' url' (some key') opts' unix' read later ≡ some (err refused, later))
            × (post_form w' url' (some key') fields opts' later ≡ some (err refused, later)))
unfolding get_with
cache_hit_leaks_trial w url key opts unix g e due uses row fresh =
    let (b', eq, busy) = claims g.breaker g.clock due in
    (
      record g { breaker = b' },
      ground (arith, eq, row, fresh),
      λ later w' url' key' fields opts' unix' read same.
          blocked later w' url' key' fields opts' unix' read (ground (arith, busy, same)),
    )
