-- ===== src/Score/Signal.antt =====
-- The two scores of `evaluate` (core/crates/genrl-core/src/score/evaluate.rs): the signal that a
-- release is the right one, and its rank among those that pass.
use genrl_downloader.Prelude.{
  ℕ, ◌+◌, ◌-◌, ◌*◌, Bool, true, false, not, ◌&&◌, ◌||◌, Option, none, some, List, [], ◌∷◌, ◌==◌,
  ltb, leb, is_some, if◌then◌else◌, max,
}
use genrl_downloader.Text.{Text, codes, contains, to_ascii_lowercase}
use genrl_downloader.Filename.Fuzzy.{Ratio}
use genrl_downloader.Rules.{Rules}
use genrl_downloader.Score.{
  Release, Candidate, Target, Settings, Points, plus, points, same_word, any_same,
}
use genrl_downloader.Score.Filters.{counts_as_batch, less_ratio}

-- The two f64 functions, in thousandths of a point: the share of a seeder count on the logarithmic
-- scale, and what is left of 10 points after an age in seconds.
pub record Scale : Type 0 where
  pub seeder_points : ℕ → ℕ
  pub recency : ℕ → ℕ

abbrev pub gain : ℕ → Points
gain n = record { gained = n; lost = 0 }

abbrev pub loss : ℕ → Points
loss n = record { gained = 0; lost = n }

unfoldable pub title_points : Ratio → Settings → ℕ
unfolding less_ratio
title_points own s = if less_ratio own s.fuzzy_threshold then 0 else points 50

unfoldable pub episode_points : Option ℕ → Option ℕ → ℕ
episode_points none none = points 30
episode_points none (some found) = 0
episode_points (some wanted) (some found) = if wanted == found then points 30 else 0
episode_points (some wanted) none = 0

unfoldable pub year_loss : Option ℕ → Option ℕ → ℕ
year_loss (some ours) (some theirs) =
    if ltb (ours + 1) theirs || ltb (theirs + 1) ours then points 20 else 0
year_loss _ _ = 0

unfoldable pub batch_points : Candidate → Target → Rules → ℕ
unfolding counts_as_batch
batch_points c t rules =
    if counts_as_batch c t && t.fully_aired
    then (if is_some t.wanted_episode && rules.prefer_batch_when_finished
        then points 50
        else if is_some t.wanted_episode
        then points 30
        else points 15)
    else 0

unfoldable pub signal : Candidate → Target → Rules → Settings → Ratio → Points
unfolding title_points episode_points year_loss batch_points
signal c t rules s own = record {
  gained =
      title_points own s
      + episode_points t.wanted_episode c.release.episode
      + (if is_some c.show_type then points 10 else 0)
      + batch_points c t rules;
  lost = year_loss c.release.year t.start_year;
}

-- `40.0 - 5.0 * index`, at the first group of the list that is this one
unfoldable pub group_from : ℕ → Text → List Text → Points
unfolding same_word
group_from index group [] = gain 0
group_from index group (g ∷ gs) =
    let rest = group_from (index + 1) group gs in
    if same_word g group then record { gained = points 40; lost = points (5 * index) } else rest

unfoldable pub group_points : Option Text → List Text → Points
unfolding group_from
group_points none groups = gain 0
group_points (some group) groups = group_from 0 group groups

unfoldable pub resolution_points : Option Text → Text → ℕ
unfolding same_word
resolution_points none preferred = 0
resolution_points (some r) preferred = if same_word r preferred then points 25 else points 10

-- Whether some language is one of the list.
unfoldable pub any_language : List Text → List Text → Bool
unfolding any_same
any_language [] wanted = false
any_language (l ∷ ls) wanted =
    let rest = any_language ls wanted in if any_same l wanted then true else rest

unfoldable pub language_points : Release → List Text → ℕ
unfolding any_language
language_points r wanted =
    if any_language r.languages wanted then points 15 else if r.dual_audio then points 10 else 0

unfoldable pub version_of : Option ℕ → ℕ
version_of none = 1
version_of (some v) = v

unfoldable pub recency_points : Scale → ℕ → Candidate → ℕ
unfolding version_of
recency_points scale now c =
    let recency = scale.recency (now - c.published_at) in
    if leb 2 (version_of c.release.version) then max recency (points 10) else recency

unfoldable pub any_contains : Text → List Text → Bool
unfolding contains to_ascii_lowercase
any_contains part [] = false
any_contains part (w ∷ ws) =
    let rest = any_contains part ws in if contains (to_ascii_lowercase w) part then true else rest

unfoldable pub is_dub : Release → Bool
unfolding any_same contains to_ascii_lowercase
is_dub r =
    not r.dual_audio
    && (any_same (codes "dub") r.languages
        || any_same (codes "english dub") r.languages
        || contains (to_ascii_lowercase r.raw) (codes "dub"))

unfoldable pub batch_loss : Candidate → Target → Rules → ℕ
batch_loss c t rules =
    if c.release.is_batch
      && is_some t.wanted_episode
      && not (t.fully_aired && rules.prefer_batch_when_finished)
    then points 50
    else 0

unfoldable pub dub_loss : Release → Rules → ℕ
unfolding is_dub any_contains
dub_loss r rules =
    if is_dub r && not (any_contains (codes "dub") rules.preferred_languages) then points 40 else 0

unfoldable pub ranking : Scale → Candidate → Target → Rules → ℕ → Points
unfolding plus group_points resolution_points language_points recency_points batch_loss dub_loss
ranking scale c t rules now = plus (group_points c.release.group rules.groups) (record {
  gained =
      resolution_points c.release.resolution rules.preferred_resolution
      + scale.seeder_points c.seeders
      + (if c.trusted && not c.remake then points 15 else 0)
      + language_points c.release rules.preferred_languages
      + recency_points scale now c;
  lost = batch_loss c t rules + dub_loss c.release rules;
})
