-- ===== src/Http/Cache.antt =====
-- The response cache (core/crates/genrl-core/src/http/cache.rs): the table `http_cache` as a list
-- of rows, whose primary key is (service, key).
pub mod Laws
pub mod Refine
use genrl_downloader.Prelude.{
  ℕ, ◌+◌, ◌-◌, zero, suc, Bool, true, false, ◌&&◌, Option, none, some, List, [], ◌∷◌, ltb, leb,
  if◌then◌else◌,
}
use genrl_downloader.Text.{Text, text_eq}

pub record CacheEntry : Type 0 where
  pub body : List ℕ
  pub etag : Option Text
  pub fetched_at : ℕ
  pub ttl : ℕ

pub record Row : Type 0 where
  pub service : Text
  pub key : Text
  pub entry : CacheEntry

unfoldable pub is_fresh : CacheEntry → ℕ → Bool
is_fresh e now = ltb now (e.fetched_at + e.ttl)

pub age : CacheEntry → ℕ → ℕ
age e now = now - e.fetched_at

unfoldable pub names : Text → Text → Row → Bool
names service key r = text_eq r.service service && text_eq r.key key

unfoldable pub get : List Row → Text → Text → Option CacheEntry
unfolding names
get [] service key = none
get (r ∷ rows) service key = if names service key r then some r.entry else get rows service key

-- `INSERT … ON CONFLICT(service, key) DO UPDATE`
pub put : List Row → Text → Text → CacheEntry → List Row
put [] service key e = record { service = service; key = key; entry = e } ∷ []
put (r ∷ rows) service key e =
    if names service key r then record r { entry = e } ∷ rows else r ∷ put rows service key e

-- After a `304 Not Modified`: the clock moves, the body stays.
pub touch : List Row → Text → Text → ℕ → ℕ → List Row
touch [] service key now ttl = []
touch (r ∷ rows) service key now ttl =
    (if names service key r
      then record r { entry = record (r.entry) { fetched_at = now; ttl = ttl } }
      else r)
    ∷ touch rows service key now ttl

-- Drop expired rows, and count them.
pub purge_expired : List Row → ℕ → List Row × ℕ
purge_expired [] now = ([], 0)
purge_expired (r ∷ rows) now =
    let (kept, n) = purge_expired rows now in
    if ltb (r.entry.fetched_at + r.entry.ttl) now then (kept, suc n) else (r ∷ kept, n)

-- `ORDER BY fetched_at DESC LIMIT keep`: SQLite orders equal times as it likes, here as they stand.
insert_newest : Row → List Row → List Row
insert_newest r [] = r ∷ []
insert_newest r (s ∷ rows) =
    if leb s.entry.fetched_at r.entry.fetched_at then r ∷ s ∷ rows else s ∷ insert_newest r rows

newest_first : List Row → List Row
unfolding insert_newest
newest_first [] = []
newest_first (r ∷ rows) = insert_newest r (newest_first rows)

split_at : ℕ → List Row → List Row × ℕ
split_at keep [] = ([], 0)
split_at zero (r ∷ rows) = let (kept, n) = split_at zero rows in (kept, suc n)
split_at (suc keep) (r ∷ rows) = let (kept, n) = split_at keep rows in (r ∷ kept, n)

-- Keep only the newest rows, and count the others.
pub prune : List Row → ℕ → List Row × ℕ
unfolding newest_first split_at
prune rows keep = split_at keep (newest_first rows)
