-- ===== src/Season/Tests.antt =====
-- A franchise of two seasons (core/crates/genrl-core/src/season).
use genrl_downloader.Prelude.{ℕ, ◌≡◌, refl, ◌↔◌, true, false, none, some, [], ◌∷◌, All, unwrap_or}
use genrl_downloader.Text.{codes}
use genrl_downloader.Models.Shows.{ListStatus, ShowType}
use genrl_downloader.Filename.{Regex, extract_season_from_title, is_cour_or_part_split}
use genrl_downloader.Season.{
  pos, SeasonEntry, SeasonChain, Wanted, wants, position, find_entry, episodes_before,
}
use genrl_downloader.Season.Number.Laws.{IsPlain}
use genrl_downloader.Season.Walk.{wanted}
use genrl_downloader.Season.Walk.Laws.{Found, wanted_iff}
use genrl_downloader.Season.Decide.{Release, download, decide}
use genrl_downloader.Season.Decide.Laws.{Names, Delivers, decide_download_iff}
use genrl_downloader.Season.Decide.Panic.{Overruns, decide_panics_iff}

-- An engine for titles that no pattern matches.
abbrev plain : Regex
plain = record { captures = λ pattern title. none; is_match = λ pattern title. false }

abbrev season_1 : SeasonEntry
season_1 = record {
  mal_id = 21;
  title = codes "Show";
  list_status = ListStatus.completed;
  watched_count = 12;
  total_episodes = some 12;
  episode_offset = pos 0;
  show_type = ShowType.tv;
  fully_aired = true;
}

abbrev season_2 : SeasonEntry
season_2 = record season_1 {
  mal_id = 22;
  title = codes "Show: The Return";
  list_status = ListStatus.watching;
  watched_count = 3;
}

abbrev chain : SeasonChain
chain = season_1 ∷ season_2 ∷ []

abbrev next : Wanted
next = record { mal_id = 22; title = codes "Show: The Return"; season = 2; episode = some 40 }

-- Episode 16 of the whole show.
abbrev absolute : Release
absolute = record { season = none; episode = some 160; is_batch = false }

at_second : position chain 22 ≡ some 1
unfolding position
at_second = refl

no_markers : All (IsPlain plain) chain
unfolding extract_season_from_title is_cour_or_part_split
no_markers = ((refl, refl), ((refl, refl), tt))

wanted_example :
    (wanted plain chain false none ≡ wants next)
    ↔ Found plain chain (unwrap_or none false) chain next
wanted_example = wanted_iff plain chain false none next

abbrev seen : SeasonEntry
seen = record season_2 { watched_count = 12 }

decide_download_example : (decide chain next absolute ≡ some (download 2 40)) ↔ (
    (2 ≡ next.season)
    × Names absolute next.season
    × ((e : SeasonEntry) × (find_entry chain next.mal_id ≡ some e)
        × Delivers chain e next absolute 40))
decide_download_example = decide_download_iff chain next absolute 2 40

-- The same episode, wanted of a "4th Season" in a chain that holds one entry.
abbrev lone : Wanted
lone = record next { mal_id = 21; season = 4 }

decide_panics_example : (decide (season_1 ∷ []) lone absolute ≡ none) ↔ (
    Names absolute lone.season
    × ((e : SeasonEntry) × (w : ℕ) × (find_entry (season_1 ∷ []) lone.mal_id ≡ some e)
        × (lone.episode ≡ some w)
        × Overruns (season_1 ∷ []) e lone.season absolute w))
decide_panics_example = decide_panics_iff (season_1 ∷ []) lone absolute

panic_test : decide (season_1 ∷ []) lone absolute ≡ none
unfolding decide find_entry episodes_before
panic_test = refl
