-- ===== src/Planner/Load.antt =====
-- The list that the planner reads from the tables `shows`, `mal_entries` and `show_names`
-- (core/crates/genrl-core/src/planner/list.rs, `load_from_db`). SQLite may give rows with the same
-- title, and the names of a show, in any order; here it is the order of the tables.
pub mod Alone
use genrl_downloader.Prelude.{
  ℕ, Bool, true, false, not, ◌&&◌, ◌||◌, Option, none, some, List, [], ◌∷◌, ◌++◌, ◌==◌, ltb,
  unwrap_or, if◌then◌else◌,
}
use genrl_downloader.Text.{Text, codes, text_eq, match_text}
use genrl_downloader.Models.Shows.{ListStatus}
use genrl_downloader.Filename.{Regex, extract_season_from_title}
use genrl_downloader.Names.{NameRow}
use genrl_downloader.Jobs.{Show, MalEntry, Db}
use genrl_downloader.Worker.Inputs.{is_in}
use genrl_downloader.Planner.{ListEntry, MalList}

unfoldable pub find_entry : ℕ → List MalEntry → Option MalEntry
find_entry mal_id [] = none
find_entry mal_id (m ∷ ms) = if m.mal_id == mal_id then some m else find_entry mal_id ms

abbrev statuses : List (Text × ListStatus)
statuses =
    (codes "watching", ListStatus.watching)
    ∷ (codes "completed", ListStatus.completed)
    ∷ (codes "on_hold", ListStatus.on_hold)
    ∷ (codes "dropped", ListStatus.dropped)
    ∷ []

unfoldable pub stored_status : Text → ListStatus
stored_status status = match_text statuses ListStatus.plan_to_watch status

unfoldable pub loaded_entry : Regex → Show → MalEntry → ListEntry
unfolding stored_status
loaded_entry re s m = record {
  mal_id = s.mal_id;
  title = s.title;
  english_title = s.english_title;
  list_status = stored_status m.list_status;
  watched_count = m.watched_count;
  total_episodes = s.total_episodes;
  start_year = s.start_year;
  auto = s.auto;
  episode_offset = s.episode_offset;
  names = s.title ∷ [];
  franchise = s.mal_id;
  season = unwrap_or (extract_season_from_title re s.title) s.season;
}

-- The order of texts by code points, which is that of their bytes.
unfoldable pub is_before : Text → Text → Bool
is_before t [] = false
is_before [] (y ∷ ys) = true
is_before (x ∷ xs) (y ∷ ys) = ltb x y || (x == y && is_before xs ys)

unfoldable pub insert_title : ListEntry → MalList → MalList
unfolding is_before
insert_title e [] = e ∷ []
insert_title e (x ∷ xs) =
    let rest = insert_title e xs in if is_before x.title e.title then x ∷ rest else e ∷ x ∷ xs

-- `FROM shows s JOIN mal_entries m … ORDER BY s.title ASC`
unfoldable pub joined : Regex → List MalEntry → List Show → MalList
unfolding find_entry loaded_entry insert_title
joined re ms [] = []
joined re ms (s ∷ ss) =
    let rest = joined re ms ss in
    elim (find_entry s.mal_id ms) [ none ↦ rest | some m ↦ insert_title (loaded_entry re s m) rest ]

unfoldable pub with_names : ℕ → List NameRow → List Text → List Text
unfolding is_in
with_names mal_id [] names = names
with_names mal_id (r ∷ rs) names =
    if r.mal_id == mal_id && not (is_in r.name names)
    then with_names mal_id rs (names ++ r.name ∷ [])
    else with_names mal_id rs names

unfoldable pub named_entries : List NameRow → MalList → MalList
unfolding with_names
named_entries rows [] = []
named_entries rows (e ∷ es) =
    record e { names = with_names e.mal_id rows e.names } ∷ named_entries rows es

unfoldable pub load_from_db : Regex → Db → MalList
unfolding joined named_entries
load_from_db re db = named_entries db.names (joined re db.mal_entries db.shows)
