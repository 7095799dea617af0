-- ===== src/Season/Walk/Laws.antt =====
-- Which entry the list wants, and what stops the walk.
use genrl_downloader.Prelude.{
  ℕ, ◌+◌, ◌≤◌, ◌≡◌, refl, ap, sym, ◌∙◌, ◌↔◌, ◌⊎◌, inl, inr, Bool, true, some, [], ◌∷◌, ◌++◌, All,
  arith, unwrap_or,
}
use genrl_downloader.Models.Shows.{ListStatus}
use genrl_downloader.Filename.{Regex}
use genrl_downloader.Season.{SeasonEntry, SeasonChain, Wanted, wants, skip, is_fully_watched}
use genrl_downloader.Season.Walk.{Overrides, wanted_from, all_watched, walk, wanted}

-- The entry's count is known and all of it is watched.
abbrev pub IsWatched : SeasonEntry → Type 0
IsWatched e = (total : ℕ) × (e.total_episodes ≡ some total) × (total ≤ e.watched_count)

-- The walk goes past the entry.
abbrev pub IsPassed : Bool → SeasonEntry → Type 0
IsPassed plan e =
    (e.list_status ≡ ListStatus.completed)
    ⊎ ((e.list_status ≡ ListStatus.plan_to_watch) × (plan ≡ true) × IsWatched e)

-- The entry is one to fetch, and more of it is left or its count is unknown.
abbrev pub IsDue : Bool → SeasonEntry → Type 0
IsDue plan e =
    ((e.list_status ≡ ListStatus.watching)
      ⊎ ((e.list_status ≡ ListStatus.plan_to_watch) × (plan ≡ true)))
    × (IsWatched e → ⊥)

all_watched_iff : (e : SeasonEntry) → (all_watched e ≡ true) ↔ IsWatched e
unfolding all_watched
all_watched_iff e = ground arith

past :
    (re : Regex) (chain : SeasonChain) (plan : Bool) (e : SeasonEntry) (es : SeasonChain)
    → IsPassed plan e
    → walk re chain plan (e ∷ es) ≡ walk re chain plan es
unfolding walk
past re chain plan e es h = ground (arith, all_watched_iff e)

skip_prefix :
    (re : Regex) (chain : SeasonChain) (plan : Bool) (before es : SeasonChain)
    → All (IsPassed plan) before
    → walk re chain plan (before ++ es) ≡ walk re chain plan es
skip_prefix re chain plan [] es h = refl
skip_prefix re chain plan (e ∷ before) es (p, h) =
    past re chain plan e (before ++ es) p ∙ skip_prefix re chain plan before es h

abbrev pub Found : Regex → SeasonChain → Bool → SeasonChain → Wanted → Type 0
Found re chain plan es x =
    (before : SeasonChain) × (e : SeasonEntry) × (after : SeasonChain) × (es ≡ before ++ e ∷ after)
    × All (IsPassed plan) before
    × IsDue plan e
    × (x ≡ wanted_from re chain e (e.watched_count + 1))

stop :
    (re : Regex) (chain : SeasonChain) (plan : Bool) (e : SeasonEntry) (es : SeasonChain)
    (x : Wanted)
    → walk re chain plan (e ∷ es) ≡ wants x
    → (IsPassed plan e × (walk re chain plan es ≡ wants x))
      ⊎ (IsDue plan e × (x ≡ wanted_from re chain e (e.watched_count + 1)))
unfolding walk
stop re chain plan e es x h = ground (arith, all_watched_iff e)

find :
    (re : Regex) (chain : SeasonChain) (plan : Bool) (es : SeasonChain) (x : Wanted)
    → walk re chain plan es ≡ wants x
    → Found re chain plan es x
unfolding walk
find re chain plan [] x h = absurd (ground arith)
find re chain plan (e ∷ es) x h = elim (stop re chain plan e es x h) [
  | inl (p, more) ↦
      let (before, d, after, eq, passed, due, same) = find re chain plan es x more in
      (e ∷ before, d, after, ap (λ xs. e ∷ xs) eq, (p, passed), due, same)
  | inr (due, same) ↦ ([], e, es, refl, tt, due, same)
]

here :
    (re : Regex) (chain : SeasonChain) (plan : Bool) (e : SeasonEntry) (es : SeasonChain)
    → IsDue plan e
    → walk re chain plan (e ∷ es) ≡ wants (wanted_from re chain e (e.watched_count + 1))
unfolding walk
here re chain plan e es due = ground (arith, all_watched_iff e)

-- The list wants an episode exactly when some entry is watching, or planned with the switch on
-- (the show's own switch before the general one), and has an unwatched episode or an unknown count,
-- while every entry before it is completed, or planned with the switch on and fully watched; it then
-- wants that entry's next unwatched episode.
pub wanted_iff :
    (re : Regex) (chain : SeasonChain) (setting : Bool) (overrides : Overrides) (x : Wanted)
    → (wanted re chain setting overrides ≡ wants x)
      ↔ Found re chain (unwrap_or overrides setting) chain x
unfolding wanted
wanted_iff re chain setting overrides x =
    let plan = unwrap_or overrides setting in
    (
      find re chain plan chain x,
      λ (before, e, after, eq, passed, due, same).
          ap (walk re chain plan) eq
          ∙ skip_prefix re chain plan before (e ∷ after) passed
          ∙ here re chain plan e after due
          ∙ ap wants (sym same),
    )

-- An entry that is marked watching and is fully watched stops the walk, whatever follows it in the
-- chain: nothing is wanted until it is marked completed.
pub fully_watched_stops :
    (re : Regex) (before after : SeasonChain) (e : SeasonEntry) (setting : Bool)
    (overrides : Overrides)
    → All (IsPassed (unwrap_or overrides setting)) before
    → e.list_status ≡ ListStatus.watching
    → IsWatched e
    → wanted re (before ++ e ∷ after) setting overrides ≡ skip (is_fully_watched e.title) true
unfolding wanted walk
fully_watched_stops re before after e setting overrides passed status watched =
    skip_prefix re (before ++ e ∷ after) (unwrap_or overrides setting) before (e ∷ after) passed
    ∙ ground (arith, all_watched_iff e)
