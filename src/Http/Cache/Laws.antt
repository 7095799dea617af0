-- ===== src/Http/Cache/Laws.antt =====
-- What a lookup finds after each change of the cache.
use genrl_downloader.Prelude.{
  ℕ, ◌≡◌, refl, ◌&&◌, Option, none, some, List, [], ◌∷◌, arith, if◌then◌else◌,
}
use genrl_downloader.Text.{Text, text_eq}
use genrl_downloader.Text.Laws.{text_eq_refl, eq_of_text_eq}
use genrl_downloader.Http.Cache.{CacheEntry, Row, names, get, put, touch}

-- A lookup after `put` finds the new entry under its own service and key, and under every other
-- pair what was there before.
pub get-put :
    (rows : List Row) (s k s' k' : Text) (e : CacheEntry)
    → get (put rows s k e) s' k' ≡ (if text_eq s s' && text_eq k k' then some e else get rows s' k')
unfolding get put names
get-put [] s k s' k' e = refl
get-put (r ∷ rows) s k s' k' e = ground (
  arith,
  eq_of_text_eq r.service s,
  eq_of_text_eq r.key k,
  eq_of_text_eq s s',
  eq_of_text_eq k k',
  text_eq_refl s,
  text_eq_refl k,
  get-put rows s k s' k' e,
)

abbrev pub touched : Option CacheEntry → ℕ → ℕ → Option CacheEntry
touched none now ttl = none
touched (some e) now ttl = some (record e { fetched_at = now; ttl = ttl })

-- `touch` moves the clock of the row that it names, leaves its body, and changes no other lookup.
pub get-touch :
    (rows : List Row) (s k s' k' : Text) (now ttl : ℕ)
    → get (touch rows s k now ttl) s' k'
      ≡ (if text_eq s s' && text_eq k k' then touched (get rows s' k') now ttl else get rows s' k')
unfolding get touch names
get-touch [] s k s' k' now ttl = ground arith
get-touch (r ∷ rows) s k s' k' now ttl = ground (
  arith,
  eq_of_text_eq r.service s,
  eq_of_text_eq r.key k,
  eq_of_text_eq s s',
  eq_of_text_eq k k',
  text_eq_refl s,
  text_eq_refl k,
  get-touch rows s k s' k' now ttl,
)
