-- ===== src/Season/Decide.antt =====
-- What to do with one parsed release (core/crates/genrl-core/src/season/decide.rs). Episodes are in
-- tenths: a cast to an integer drops the last digit.
pub mod Laws
pub mod Panic
use genrl_downloader.Prelude.{
  ℕ, zero, suc, ◌+◌, ◌-◌, ◌*◌, ◌/◌, Bool, true, false, not, ◌||◌, ◌&&◌, Option, none, some, List,
  [], ◌∷◌, leb, ltb, ◌==◌, if◌then◌else◌,
}
use genrl_downloader.Text.{Text}
use genrl_downloader.Season.{
  ℤ, pos, negsuc, SeasonEntry, SeasonChain, Wanted, find_entry, episodes_before,
}

-- The fields of `Release` that are read here.
pub record Release : Type 0 where
  pub season : Option ℕ
  pub episode : Option ℕ
  pub is_batch : Bool

-- What a reason says; the code formats it as text.
pub data Reason : Type 0 where
  no_chain_entry : ℕ → Reason
  other_season : ℕ → Text → ℕ → Reason
  numbered_release : ℕ → Reason
  batch_of_airing : Reason
  no_number : Reason
  already_watched : ℕ → Reason
  earlier : ℕ → ℕ → Reason
  count_unknown : ℕ → Reason
  -- found, cumulative, wanted: the code prints their difference
  elsewhere : ℕ → ℕ → ℕ → Reason
  no_fit : ℕ → Reason
  later : ℕ → ℕ → Reason
  no_count : ℕ → ℕ → Reason

pub data Decision : Type 0 where
  -- season, episode
  download : ℕ → ℕ → Decision
  skip ask not_found : Reason → Decision

decide_feature : ℕ → Option ℕ → Decision
decide_feature season none = download season 10
decide_feature season (some found) =
    if found == 10 then download season 10 else ask (numbered_release found)

-- `w + episode_offset` is the number found, where the offset is not 0.
unfoldable pub offset_match : ℕ → ℤ → ℕ → Bool
offset_match w (pos n) found = not (n == 0) && (w + n * 10 == found)
offset_match w (negsuc n) found = w == found + (n + 1) * 10

-- The number found is one of the accepted ones.
unfoldable pub accepted : ℕ → SeasonEntry → ℕ → Bool
unfolding offset_match
accepted w e found = w == found || offset_match w e.episode_offset found

-- The number counts on from the seasons before: `mapped` is `found - cumulative`.
map_absolute : ℕ → ℕ → ℕ → ℕ → ℕ → Decision
map_absolute season w found total cumulative =
    if found / 10 == cumulative + w / 10
    then download season w
    else if leb (cumulative + 1) (found / 10) && leb (found / 10) (cumulative + total)
    then skip (elsewhere found cumulative w)
    else ask (no_fit found)

-- A number beyond the wanted one; `none` is a panic.
decide_beyond : SeasonChain → ℕ → ℕ → ℕ → Option ℕ → Option Decision
unfolding map_absolute
decide_beyond chain season w found none = some (ask (no_count found w))
decide_beyond chain season w found (some total) =
    if ltb total (found / 10)
    then elim (episodes_before chain season) [
      | none ↦ none
      | some none ↦ some (ask (count_unknown found))
      | some (some cumulative) ↦ some (map_absolute season w found total cumulative)
    ]
    else some (skip (later found w))

decide_number : SeasonChain → SeasonEntry → ℕ → ℕ → ℕ → Option Decision
unfolding accepted decide_beyond
decide_number chain e season w found =
    if accepted w e found
    then some (download season w)
    else if ltb found w
    then if leb (found / 10) e.watched_count
      then some (skip (already_watched found))
      else some (skip (earlier found w))
    else decide_beyond chain season w found e.total_episodes

decide_episode : SeasonChain → SeasonEntry → ℕ → ℕ → Release → Option ℕ → Option Decision
unfolding decide_number
decide_episode chain e season w release none =
    if release.is_batch
    then if e.fully_aired then some (download season w) else some (ask batch_of_airing)
    else some (ask no_number)
decide_episode chain e season w release (some found) = decide_number chain e season w found

-- The release may be of the wanted season.
decide_season : SeasonChain → SeasonEntry → Wanted → Release → Option Decision
unfolding decide_feature decide_episode
decide_season chain e wanted release = elim wanted.episode [
  | none ↦ some (decide_feature wanted.season release.episode)
  | some w ↦ decide_episode chain e wanted.season w release release.episode
]

-- A marker must name the wanted season.
other_marker : Option ℕ → ℕ → Option ℕ
other_marker none season = none
other_marker (some found) season = if found == season then none else some found

-- `none` where the code panics.
unfoldable pub decide : SeasonChain → Wanted → Release → Option Decision
unfolding decide_season other_marker
decide chain wanted release = elim (find_entry chain wanted.mal_id) [
  | none ↦ some (not_found (no_chain_entry wanted.mal_id))
  | some e ↦ elim (other_marker release.season wanted.season) [
    | some found ↦ some (not_found (other_season found wanted.title wanted.season))
    | none ↦ decide_season chain e wanted release
  ]
]
