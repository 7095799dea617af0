-- ===== src/Season/Number.antt =====
-- The season number of an entry (`SeasonChain::season_of`, core/crates/genrl-core/src/season/types.rs).
pub mod Laws
use genrl_downloader.Prelude.{
  ℕ, zero, suc, ◌+◌, ◌-◌, ◌≤◌, ◌<◌, ◌≡◌, refl, ◌≢◌, Bool, true, false, ◌&&◌, Option, none, some,
  List, [], ◌∷◌, ltb, ◌==◌, if◌then◌else◌, length, get_elem?, arith, All, Option-cases, inl, inr,
  ◌⊎◌,
}
use genrl_downloader.Text.{Text}
use genrl_downloader.Filename.{Regex, extract_season_from_title, is_cour_or_part_split}
use genrl_downloader.Season.{SeasonEntry, SeasonChain, position}

-- The loop `for i in 0..target_pos`: `left` entries from the `i`-th on, none read past the end.
unfoldable pub count_seasons : Regex → SeasonChain → ℕ → ℕ → ℕ → ℕ
count_seasons re [] i left season = season
count_seasons re (e ∷ es) i zero season = season
count_seasons re (e ∷ es) i (suc left) season = elim (extract_season_from_title re e.title) [
  | some explicit ↦ count_seasons re es (suc i) left (explicit + 1)
  | none ↦
      if ltb 0 i && is_cour_or_part_split re e.title
      then count_seasons re es (suc i) left season
      else count_seasons re es (suc i) left (season + 1)
]

-- The recursion goes to an earlier entry each time; `none` where the fuel runs out.
unfoldable pub season_from : Regex → SeasonChain → ℕ → ℕ → Option (Option ℕ)
unfolding position count_seasons
season_from re chain zero mal_id = none
season_from re chain (suc fuel) mal_id = elim (position chain mal_id) [
  | none ↦ some none
  | some target ↦ elim (get_elem? chain target) [
    | none ↦ none
    | some entry ↦ elim (extract_season_from_title re entry.title) [
      | some explicit ↦ some (some explicit)
      | none ↦
          if ltb 0 target && is_cour_or_part_split re entry.title
          then elim (get_elem? chain (target - 1)) [
            | none ↦ none
            | some before ↦ season_from re chain fuel before.mal_id
          ]
          else some (some (count_seasons re chain 0 target 1))
    ]
  ]
]

-- The fuel is the chain's length and one.
unfoldable pub season_of : Regex → SeasonChain → ℕ → Option (Option ℕ)
unfolding season_from
season_of re chain mal_id = season_from re chain (suc (length chain)) mal_id
