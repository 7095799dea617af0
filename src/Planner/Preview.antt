-- ===== src/Planner/Preview.antt =====
-- What the planner would queue (core/crates/genrl-core/src/planner/preview.rs, `build_preview`).
pub mod Laws
use genrl_downloader.Prelude.{
  ℕ, ◌-◌, Bool, true, false, not, ◌&&◌, ◌||◌, Option, none, some, List, [], ◌∷◌, ◌++◌, ◌==◌,
  if◌then◌else◌, map, length, unwrap_or,
}
use genrl_downloader.Text.{Text}
use genrl_downloader.Error.{Result, ok, err, ◌>>=◌}
use genrl_downloader.Filename.{Regex}
use genrl_downloader.Rules.{Json, for_show}
use genrl_downloader.Season.{SeasonEntry, SeasonChain, Wanted, Want, wants, skip, WhyNot}
use genrl_downloader.Season.Walk.{Overrides, wanted}
use genrl_downloader.Jobs.{Episode, Db}
use genrl_downloader.Planner.{MalList, chains}

pub record PlannedEpisode : Type 0 where
  pub mal_id : ℕ
  pub title : Text
  pub season : ℕ
  pub episode : ℕ  -- in tenths

pub record SkipNote : Type 0 where
  pub mal_id : ℕ
  pub title : Text
  pub reason : WhyNot

pub record PlanPreview : Type 0 where
  pub episodes : List PlannedEpisode
  pub skipped : List SkipNote
  pub cap : ℕ
  pub over_cap : ℕ
  pub awaiting_confirmation : Bool

-- Of the settings, what the planner reads.
pub record PlanSettings : Type 0 where
  pub first_run_complete : Bool
  pub auto_plan_to_watch : Bool
  pub daily_torrent_cap : ℕ
  pub first_sync_cap : ℕ

unfoldable pub is_episode : ℕ → ℕ → Episode → Bool
is_episode mal_id number e = e.mal_id == mal_id && e.number == number

-- `SELECT COUNT(*) … WHERE mal_id = ?1 AND number = ?2`, not 0.
unfoldable pub has_episode : ℕ → ℕ → List Episode → Bool
unfolding is_episode
has_episode mal_id number [] = false
has_episode mal_id number (e ∷ es) = is_episode mal_id number e || has_episode mal_id number es

-- The overrides of the chain's first entry.
unfoldable pub overrides_of : Json → SeasonChain → Db → Result Overrides
unfolding for_show
overrides_of json [] db = ok none
overrides_of json (e ∷ es) db = do
  rules ← for_show json e.mal_id db.rules
  ok rules.auto_plan_to_watch

unfoldable pub planned : Wanted → PlannedEpisode
planned w = record {
  mal_id = w.mal_id;
  title = w.title;
  season = w.season;
  episode = unwrap_or w.episode 10;
}

unfoldable pub note_skips : WhyNot → SeasonChain → List SkipNote
note_skips why [] = []
note_skips why (e ∷ es) =
    record { mal_id = e.mal_id; title = e.title; reason = why } ∷ note_skips why es

-- What one chain adds to the preview.
unfoldable pub offer : Db → SeasonChain → Want → List PlannedEpisode × List SkipNote
unfolding has_episode planned note_skips
offer db chain (wants w) =
    if has_episode w.mal_id (unwrap_or w.episode 10) db.episodes
    then ([], [])
    else (planned w ∷ [], [])
offer db chain (skip why watched) = ([], note_skips why chain)

unfoldable pub offers :
    Regex
    → Json
    → PlanSettings
    → Db
    → List SeasonChain
    → Result (List PlannedEpisode × List SkipNote)
unfolding overrides_of offer
offers re json s db [] = ok ([], [])
offers re json s db (chain ∷ rest) = do
  overrides ← overrides_of json chain db
  more ← offers re json s db rest
  let here = offer db chain (wanted re chain s.auto_plan_to_watch overrides)
  ok (here.0 ++ more.0, here.1 ++ more.1)

unfoldable pub build_preview : Regex → Json → Db → MalList → PlanSettings → Result PlanPreview
unfolding offers
build_preview re json db list s = do
  found ← offers re json s db (chains list)
  ok (record {
    episodes = found.0;
    skipped = found.1;
    cap = s.daily_torrent_cap;
    over_cap = length found.0 - s.daily_torrent_cap;
    awaiting_confirmation = not s.first_run_complete;
  })
