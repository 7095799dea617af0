-- ===== src/Worker/Inputs.antt =====
-- What the matching reads from the tables (core/crates/genrl-core/src/matching/types.rs,
-- `TargetInputs`; matching/search.rs; worker/helpers.rs, `candidate_rows`).
use genrl_downloader.Prelude.{
  ℕ, zero, suc, Bool, true, false, not, ◌&&◌, ◌||◌, Option, none, some, List, [], ◌∷◌, ◌==◌, ltb,
  if◌then◌else◌, map, unwrap_or,
}
use genrl_downloader.Text.{Text, codes, text_eq}
use genrl_downloader.Error.{Error, Result, ok, err, other, ◌>>=◌}
use genrl_downloader.Models.Shows.{ShowType, finished, parse_airing_status}
use genrl_downloader.Filename.{Regex, extract_season_from_title}
use genrl_downloader.Filename.Normalize.{Chars}
use genrl_downloader.Names.{NameRow, load, search_order}
use genrl_downloader.Questions.{ExpectedShow, MatchOption}
use genrl_downloader.Score.{Release, Candidate, Target, Points}
use genrl_downloader.Score.Evaluate.{Ranked}
use genrl_downloader.Filename.Fuzzy.{Ratio}
use genrl_downloader.Jobs.{Show, Torrent, Db}
use genrl_downloader.Planner.Apply.Single.{find_show}

pub record TargetInputs : Type 0 where
  pub mal_id : ℕ
  pub title : Text
  pub english_title : Option Text
  pub start_year : Option ℕ
  pub show_type : ShowType
  pub total_episodes : Option ℕ
  pub season : ℕ
  pub fully_aired : Bool
  pub auto : Bool
  pub names : List Text
  pub other_names : List Text

unfoldable pub is_in : Text → List Text → Bool
is_in t [] = false
is_in t (u ∷ us) = text_eq u t || is_in t us

-- `SELECT DISTINCT normalized … WHERE mal_id != ?1`
unfoldable pub other_show_names : ℕ → List NameRow → List Text
unfolding is_in
other_show_names mal_id [] = []
other_show_names mal_id (r ∷ rs) =
    let rest = other_show_names mal_id rs in
    if r.mal_id == mal_id || is_in r.normalized rest then rest else r.normalized ∷ rest

unfoldable pub is_aired : Text → Bool
unfolding parse_airing_status
is_aired status = elim (parse_airing_status status) [ finished ↦ true | _ ↦ false ]

unfoldable pub inputs_of : Regex → Show → Bool → List Text → List Text → TargetInputs
inputs_of re s fully_aired names other_names = record {
  mal_id = s.mal_id;
  title = s.title;
  english_title = s.english_title;
  start_year = s.start_year;
  show_type = s.show_type;
  total_episodes = s.total_episodes;
  season = unwrap_or (extract_season_from_title re s.title) s.season;
  fully_aired = fully_aired;
  auto = s.auto;
  names = names;
  other_names = other_names;
}

-- A status that is NULL does not read as a text.
unfoldable pub load_show : ℕ → List Show → Result (Show × Text)
unfolding find_show
load_show mal_id shows = elim (find_show mal_id shows) [
  | none ↦ err (other (codes "no show with that MAL id"))
  | some s ↦ elim s.status [
    | none ↦ err (Error.db (codes "Invalid column type Null"))
    | some status ↦ ok (s, status)
  ]
]

unfoldable pub load_inputs : Regex → Chars → ℕ → Db → Result TargetInputs
unfolding load_show is_aired inputs_of other_show_names load search_order
load_inputs re chars mal_id db = do
  found ← load_show mal_id db.shows
  elim (search_order (load chars mal_id db.names)) [
    | [] ↦ err (other (codes "the show has no names to search for"))
    | n ∷ ns ↦
        ok (inputs_of re found.0 (is_aired found.1) (n ∷ ns) (other_show_names mal_id db.names))
  ]

unfoldable pub score_target : TargetInputs → Option ℕ → Target
score_target i wanted_episode = record {
  names = i.names;
  other_names = i.other_names;
  wanted_episode = wanted_episode;
  show_type = i.show_type;
  season = i.season;
  start_year = i.start_year;
  fully_aired = i.fully_aired;
  total_episodes = i.total_episodes;
}

unfoldable pub expected_show : TargetInputs → ExpectedShow
expected_show i = record {
  mal_id = i.mal_id;
  title = i.title;
  english_title = i.english_title;
  year = i.start_year;
}

-- The notes of a score are left out.
unfoldable pub to_option : (Points → ℕ) → (Ratio → ℕ) → Ranked → MatchOption
to_option stored_score stored_ratio r = record {
  info_hash = r.candidate.info_hash;
  name = r.candidate.release.raw;
  magnet = r.candidate.magnet;
  group = r.candidate.release.group;
  resolution = r.candidate.release.resolution;
  seeders = r.candidate.seeders;
  size_bytes = r.candidate.size_bytes;
  signal = stored_score r.scored.signal;
  ranking = stored_score r.scored.ranking;
  title_ratio = stored_ratio r.scored.title_ratio;
  why = [];
}

-- `ORDER BY found_at DESC, seeders DESC`
unfoldable pub is_newer : Torrent → Torrent → Bool
is_newer a b = ltb b.found_at a.found_at || (a.found_at == b.found_at && ltb b.seeders a.seeders)

unfoldable pub insert_newest : Torrent → List Torrent → List Torrent
unfolding is_newer
insert_newest t [] = t ∷ []
insert_newest t (x ∷ xs) =
    let rest = insert_newest t xs in if is_newer x t then x ∷ rest else t ∷ x ∷ xs

unfoldable pub of_show : ℕ → List Torrent → List Torrent
unfolding insert_newest
of_show mal_id [] = []
of_show mal_id (t ∷ ts) =
    let rest = of_show mal_id ts in
    if not t.rejected && elim t.mal_id [ none ↦ false | some id ↦ id == mal_id ]
    then insert_newest t rest
    else rest

unfoldable pub first_rows : ℕ → List Torrent → List Torrent
first_rows zero ts = []
first_rows (suc n) [] = []
first_rows (suc n) (t ∷ ts) = t ∷ first_rows n ts

unfoldable pub as_candidate : (Text → Release) → Torrent → Candidate
as_candidate parse_release t = record {
  release = parse_release t.name;
  info_hash = t.info_hash;
  magnet = t.magnet;
  seeders = t.seeders;
  leechers = t.leechers;
  trusted = false;
  remake = false;
  size_bytes = t.size_bytes;
  published_at = t.found_at;
  uploader = none;
  show_type = none;
  category_id = none;
}

unfoldable pub candidate_rows : (Text → Release) → ℕ → Db → List Candidate
unfolding of_show first_rows as_candidate
candidate_rows parse_release mal_id db =
    map (as_candidate parse_release) (first_rows 50 (of_show mal_id db.torrents))
