-- ===== src/Season/Walk.antt =====
-- What the list wants next (`SeasonChain::wanted`, core/crates/genrl-core/src/season/walk.rs). An
-- episode is in tenths.
pub mod Laws
use genrl_downloader.Prelude.{
  ℕ, zero, suc, ◌+◌, ◌*◌, Bool, true, false, Option, none, some, List, [], ◌∷◌, leb, if◌then◌else◌,
  unwrap_or,
}
use genrl_downloader.Models.Shows.{ListStatus, ShowType}
use genrl_downloader.Filename.{Regex}
use genrl_downloader.Season.{
  SeasonEntry, SeasonChain, Wanted, Want, wants, skip, is_on_hold, is_dropped, is_manual,
  is_fully_watched, nothing_left,
}
use genrl_downloader.Season.Number.{season_of}

-- `auto_plan_to_watch`
abbrev pub Overrides : Type 0
Overrides = Option Bool

-- `season_of(…).unwrap_or(1)`
season_or_first : Option (Option ℕ) → ℕ
season_or_first (some (some season)) = season
season_or_first _ = 1

-- The source's two arms for `show_type` are the same.
unfoldable pub wanted_from : Regex → SeasonChain → SeasonEntry → ℕ → Wanted
unfolding season_or_first
wanted_from re chain e episode = record {
  mal_id = e.mal_id;
  title = e.title;
  season = season_or_first (season_of re chain e.mal_id);
  episode = some (episode * 10);
}

-- The entry's count is known and all of it is watched.
unfoldable pub all_watched : SeasonEntry → Bool
all_watched e = elim e.total_episodes [ none ↦ false | some total ↦ leb total e.watched_count ]

-- The loop over the entries.
unfoldable pub walk : Regex → SeasonChain → Bool → SeasonChain → Want
unfolding all_watched
walk re chain plan_allowed [] = skip nothing_left false
walk re chain plan_allowed (e ∷ es) =
    let rest = walk re chain plan_allowed es in
    elim e.list_status [
      | ListStatus.completed ↦ rest
      | ListStatus.on_hold ↦ skip (is_on_hold e.title) false
      | ListStatus.dropped ↦ skip (is_dropped e.title) false
      | ListStatus.plan_to_watch ↦
          if plan_allowed
          then if all_watched e then rest else wants (wanted_from re chain e (e.watched_count + 1))
          else skip (is_manual e.title) false
      | ListStatus.watching ↦
          if all_watched e
          then skip (is_fully_watched e.title) true
          else wants (wanted_from re chain e (e.watched_count + 1))
    ]

-- `auto_plan_to_watch` is the setting of that name.
unfoldable pub wanted : Regex → SeasonChain → Bool → Overrides → Want
wanted re chain auto_plan_to_watch overrides =
    walk re chain (unwrap_or overrides auto_plan_to_watch) chain
