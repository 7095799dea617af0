-- ===== src/Http/Tests.antt =====
-- Concrete schedules, buckets, rows and bodies (core/crates/genrl-core/src/http).
use genrl_downloader.Prelude.{
  ℕ, ◌+◌, ◌*◌, ◌-◌, ◌≤◌, ◌<◌, max, ◌≡◌, none, some, List, [], ◌∷◌, arith, ◌↔◌, length,
}
use genrl_downloader.Text.{Text, codes}
use genrl_downloader.Http.Policy.{for_service, jikan}
use genrl_downloader.Http.Limiter.{new, run, token}
use genrl_downloader.Http.Limiter.Bound.{permits_bounded}
use genrl_downloader.Http.Cache.{CacheEntry, get}
use genrl_downloader.Http.Cache.Refine.{Command, store, renew, purge, replay, IsTable, run_refines}
use genrl_downloader.Http.Cache.Refine
use genrl_downloader.Error.{ok}
use genrl_downloader.Http.Wire.{Chunks, end, chunk, read_body}
use genrl_downloader.Http.Wire.Laws.{bytes_of, Whole, read_body_iff}

abbrev times : List ℕ
times = 5 ∷ 6 ∷ 7 ∷ 600_000_000 ∷ []

permits_bounded_example :
    let spec = (for_service jikan).rate in
    let granted = (run (new spec 5) times).1 in
    (granted * token ≤ max spec.burst 1 * token + (600_000_000 - 5) * spec.permits_per_second)
    × ((cap : ℕ)
        → spec.per_minute_cap ≡ some cap
        → 0 < cap
        → granted * token ≤ cap * token + (600_000_000 - 5) * (cap * 1000))
permits_bounded_example =
    permits_bounded (for_service jikan).rate 5 600_000_000 times (ground arith) (ground arith)

abbrev page : Chunks
page = chunk (1 ∷ 2 ∷ []) (chunk (3 ∷ []) end)

abbrev bytes : List ℕ
bytes = 1 ∷ 2 ∷ 3 ∷ []

abbrev stored : CacheEntry
stored = record { body = b'o' ∷ []; etag = none; fetched_at = 10; ttl = 60 }

abbrev commands : List Command
commands =
    store (codes "mal") (codes "a") stored ∷ renew (codes "mal") (codes "a") 40 60 ∷ purge 90 ∷ []

run_refines_example :
    IsTable (Refine.run commands [])
    × ((s k : Text) → get (Refine.run commands []) s k ≡ replay commands (get []) s k)
run_refines_example = run_refines commands [] tt

read_body_example :
    (read_body page 4 (codes "/feed") 9 ≡ ok bytes)
    ↔ ((length bytes ≤ 4) × (bytes ≡ bytes_of page) × Whole page)
read_body_example = read_body_iff page 4 (codes "/feed") 9 bytes
