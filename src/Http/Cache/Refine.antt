-- ===== src/Http/Cache/Refine.antt =====
-- The table against a map (core/crates/genrl-core/src/http/cache.rs): a run of the statements is a
-- run of updates of a function from service and key to an entry.
use genrl_downloader.Prelude.{
  ℕ, ◌+◌, true, false, ◌&&◌, ◌≡◌, refl, sym, ap, subst, ◌∙◌, inl, inr, Option, none, some, List, [],
  ◌∷◌, ltb, if◌then◌else◌, Bool-cases, arith,
}
use genrl_downloader.Text.{Text, text_eq}
use genrl_downloader.Text.Laws.{eq_of_text_eq, text_eq_refl}
use genrl_downloader.Http.Cache.{CacheEntry, Row, names, get, put, touch, purge_expired}
use genrl_downloader.Http.Cache.Laws.{touched, get-put, get-touch}

pub data Command : Type 0 where
  store : Text → Text → CacheEntry → Command
  renew : Text → Text → ℕ → ℕ → Command
  purge : ℕ → Command

unfoldable pub exec : Command → List Row → List Row
unfolding put touch purge_expired
exec (store s k e) rows = put rows s k e
exec (renew s k now ttl) rows = touch rows s k now ttl
exec (purge now) rows = (purge_expired rows now).0

unfoldable pub run : List Command → List Row → List Row
unfolding exec
run [] rows = rows
run (c ∷ cs) rows = run cs (exec c rows)

-- What a reader sees.
abbrev pub View : Type 0
View = Text → Text → Option CacheEntry

abbrev pub alive : ℕ → Option CacheEntry → Option CacheEntry
alive now none = none
alive now (some e) = if ltb (e.fetched_at + e.ttl) now then none else some e

abbrev pub update : Command → View → View
update (store s k e) m s' k' = if text_eq s s' && text_eq k k' then some e else m s' k'
update (renew s k now ttl) m s' k' =
    if text_eq s s' && text_eq k k' then touched (m s' k') now ttl else m s' k'
update (purge now) m s' k' = alive now (m s' k')

abbrev pub replay : List Command → View → View
replay [] m = m
replay (c ∷ cs) m = replay cs (update c m)

-- `PRIMARY KEY (service, key)`
abbrev pub IsTable : List Row → Type 0
IsTable [] = Unit
IsTable (r ∷ rows) = (get rows r.service r.key ≡ none) × IsTable rows

absent_stays :
    (now : ℕ) (rows : List Row) (s k : Text)
    → get rows s k ≡ none
    → get ((purge_expired rows now).0) s k ≡ none
unfolding get purge_expired
absent_stays now [] s k h = refl
absent_stays now (r ∷ rows) s k h = elim (Bool-cases (names s k r)) [
  | inl hit ↦ absurd (ground (arith, h, hit))
  | inr apart ↦ ground (arith, h, apart, absent_stays now rows s k)
]

key_of :
    (s k : Text) (r : Row) (rows : List Row)
    → names s k r ≡ true
    → get rows r.service r.key ≡ none
    → get rows s k ≡ none
unfolding names
key_of s k r rows hit h =
    let e : r.service ≡ s = eq_of_text_eq r.service s (ground (arith, hit)) in
    let f : r.key ≡ k = eq_of_text_eq r.key k (ground (arith, hit)) in
    subst (λ x. get rows x k ≡ none) e (subst (λ x. get rows r.service x ≡ none) f h)

get-purge :
    (now : ℕ) (rows : List Row) (s k : Text)
    → IsTable rows
    → get ((purge_expired rows now).0) s k ≡ alive now (get rows s k)
unfolding get purge_expired
get-purge now [] s k w = refl
get-purge now (r ∷ rows) s k w = elim (Bool-cases (names s k r)) [
  | inr apart ↦ ground (arith, apart, get-purge now rows s k w.1)
  | inl hit ↦
      let gone = absent_stays now rows s k (key_of s k r rows hit w.0) in ground (arith, hit, gone)
]

-- What each statement does to the view.
exec-update :
    (c : Command) (rows : List Row) (s k : Text)
    → IsTable rows
    → get (exec c rows) s k ≡ update c (get rows) s k
unfolding exec
exec-update (store s k e) rows s' k' w = get-put rows s k s' k' e
exec-update (renew s k now ttl) rows s' k' w = get-touch rows s k s' k' now ttl
exec-update (purge now) rows s' k' w = get-purge now rows s' k' w

text_eq_sym : (s t : Text) → text_eq s t ≡ true → text_eq t s ≡ true
text_eq_sym s t h = subst (λ u. text_eq t u ≡ true) (sym (eq_of_text_eq s t h)) (text_eq_refl t)

named_back :
    (s k : Text) (r : Row) → names s k r ≡ false → (text_eq s r.service && text_eq k r.key) ≡ false
unfolding names
named_back s k r h = elim (Bool-cases (text_eq s r.service && text_eq k r.key)) [
  | inr apart ↦ apart
  | inl same ↦ ground (arith, h, same, text_eq_sym s r.service, text_eq_sym k r.key)
]

put-IsTable :
    (rows : List Row) (s k : Text) (e : CacheEntry) → IsTable rows → IsTable (put rows s k e)
unfolding put get
put-IsTable [] s k e w = (refl, tt)
put-IsTable (r ∷ rows) s k e w = elim (Bool-cases (names s k r)) [
  | inl hit ↦ rw (hit) w
  | inr apart ↦ rw (apart) (
    get-put rows s k r.service r.key e ∙ ground (arith, named_back s k r apart, w.0),
    put-IsTable rows s k e w.1,
  )
]

touch-IsTable :
    (rows : List Row) (s k : Text) (now ttl : ℕ) → IsTable rows → IsTable (touch rows s k now ttl)
unfolding touch
touch-IsTable [] s k now ttl w = tt
touch-IsTable (r ∷ rows) s k now ttl w = elim (Bool-cases (names s k r)) [
  | inl hit ↦ rw (hit) (still r.service r.key w.0, touch-IsTable rows s k now ttl w.1)
  | inr apart ↦ rw (apart) (still r.service r.key w.0, touch-IsTable rows s k now ttl w.1)
]
  where
    still : (s' k' : Text) → get rows s' k' ≡ none → get (touch rows s k now ttl) s' k' ≡ none
    still s' k' h = get-touch rows s k s' k' now ttl ∙ ground (arith, h)

purge-IsTable : (rows : List Row) (now : ℕ) → IsTable rows → IsTable ((purge_expired rows now).0)
unfolding purge_expired
purge-IsTable [] now w = tt
purge-IsTable (r ∷ rows) now w = elim (Bool-cases (ltb (r.entry.fetched_at + r.entry.ttl) now)) [
  | inl late ↦
      subst IsTable {x = (purge_expired rows now).0} (ground (arith, late))
        (purge-IsTable rows now w.1)
  | inr fresh ↦
      subst IsTable {x = r ∷ (purge_expired rows now).0} (ground (arith, fresh))
        (absent_stays now rows r.service r.key w.0, purge-IsTable rows now w.1)
]

exec-IsTable : (c : Command) (rows : List Row) → IsTable rows → IsTable (exec c rows)
unfolding exec
exec-IsTable (store s k e) rows w = put-IsTable rows s k e w
exec-IsTable (renew s k now ttl) rows w = touch-IsTable rows s k now ttl w
exec-IsTable (purge now) rows w = purge-IsTable rows now w

-- Views that agree everywhere stay so under the same commands.
replay_agrees :
    (cs : List Command) (m m' : View)
    → ((s k : Text) → m s k ≡ m' s k)
    → (s k : Text) → replay cs m s k ≡ replay cs m' s k
replay_agrees [] m m' h s k = h s k
replay_agrees (c ∷ cs) m m' h s k = replay_agrees cs (update c m) (update c m') (step c) s k
  where
    step : (c : Command) (s' k' : Text) → update c m s' k' ≡ update c m' s' k'
    step (store s1 k1 e) s' k' =
        ap (λ x. if text_eq s1 s' && text_eq k1 k' then some e else x) (h s' k')
    step (renew s1 k1 now ttl) s' k' =
        ap (λ x. if text_eq s1 s' && text_eq k1 k' then touched x now ttl else x) (h s' k')
    step (purge now) s' k' = ap (alive now) (h s' k')

-- The cache implements a map: on a table whose keys are unique, any run of storing, touching and
-- purging gives each later read what the same run gives on a function from service and key to an
-- entry, and the keys stay unique.
pub run_refines :
    (cs : List Command) (rows : List Row)
    → IsTable rows
    → IsTable (run cs rows) × ((s k : Text) → get (run cs rows) s k ≡ replay cs (get rows) s k)
unfolding run
run_refines [] rows w = (w, λ s k. refl)
run_refines (c ∷ cs) rows w =
    let (w', same) = run_refines cs (exec c rows) (exec-IsTable c rows w) in
    (
      w',
      λ s k.
          same s k
          ∙ replay_agrees cs (get (exec c rows)) (update c (get rows))
              (λ s' k'. exec-update c rows s' k' w) s k,
    )
