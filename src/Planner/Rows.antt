-- ===== src/Planner/Rows.antt =====
-- The rows that the planner writes (core/crates/genrl-core/src/planner/db_ops.rs).
use genrl_downloader.Prelude.{
  ℕ, suc, ◌+◌, Bool, false, ◌||◌, Option, none, some, List, [], ◌∷◌, ◌++◌, ◌==◌, if◌then◌else◌, min,
}
use genrl_downloader.Text.{Text, codes}
use genrl_downloader.Error.{Result, ok, err}
use genrl_downloader.Error
use genrl_downloader.Models.Shows.{tv}
use genrl_downloader.Filename.Normalize.{Chars}
use genrl_downloader.Names.{NameSource, mal, replace_from_sync}
use genrl_downloader.Jobs.{Show, Episode, Db, missing}
use genrl_downloader.Planner.{ListEntry}
use genrl_downloader.Planner.Preview.{is_episode}

-- `COALESCE(new, old)`
unfoldable pub coalesce {ℓ} : {A : Type ℓ} → Option A → Option A → Option A
coalesce (some a) old = some a
coalesce none old = old

unfoldable pub new_show : ListEntry → Show
new_show e = record {
  mal_id = e.mal_id;
  title = e.title;
  english_title = e.english_title;
  show_type = tv;
  status = some (codes "finished");
  total_episodes = e.total_episodes;
  start_year = e.start_year;
  auto = e.auto;
  episode_offset = e.episode_offset;
  season = e.season;
  metadata_status = codes "pending";
}

unfoldable pub updated_show : ListEntry → Show → Show
unfolding coalesce
updated_show e s = record s {
  title = e.title;
  english_title = coalesce e.english_title s.english_title;
  total_episodes = coalesce e.total_episodes s.total_episodes;
  start_year = coalesce e.start_year s.start_year;
  auto = e.auto;
  episode_offset = e.episode_offset;
  season = e.season;
}

unfoldable pub put_show : ListEntry → List Show → List Show
unfolding new_show updated_show
put_show e [] = new_show e ∷ []
put_show e (s ∷ ss) =
    let rest = put_show e ss in if s.mal_id == e.mal_id then updated_show e s ∷ ss else s ∷ rest

unfoldable pub upsert_show : ListEntry → Db → Db
unfolding put_show
upsert_show e db = record db { shows = put_show e db.shows }

-- The names from the second on, with their places.
unfoldable pub ranked_names : ℕ → List Text → List (Text × NameSource × ℕ)
ranked_names place [] = []
ranked_names place (n ∷ ns) = (n, mal, min place 255) ∷ ranked_names (suc place) ns

-- The main name has priority 0.
unfoldable pub names_of : ListEntry → List (Text × NameSource × ℕ)
unfolding ranked_names
names_of e = elim e.names [ [] ↦ (e.title, mal, 0) ∷ [] | n ∷ ns ↦ (n, mal, 0) ∷ ranked_names 1 ns ]

unfoldable pub upsert_names : Chars → ListEntry → Db → Db
unfolding replace_from_sync names_of
upsert_names chars e db = record db {
  names = replace_from_sync chars e.mal_id (names_of e) db.names;
}

unfoldable pub has_show : ℕ → List Show → Bool
has_show mal_id [] = false
has_show mal_id (s ∷ ss) = s.mal_id == mal_id || has_show mal_id ss

unfoldable pub find_number : ℕ → ℕ → List Episode → Option ℕ
unfolding is_episode
find_number mal_id number [] = none
find_number mal_id number (e ∷ es) =
    if is_episode mal_id number e then some e.id else find_number mal_id number es

-- `ON CONFLICT … DO UPDATE SET last_checked`
unfoldable pub checked : ℕ → ℕ → ℕ → List Episode → List Episode
unfolding is_episode
checked now mal_id number [] = []
checked now mal_id number (e ∷ es) =
    let rest = checked now mal_id number es in
    if is_episode mal_id number e then record e { last_checked = some now } ∷ rest else e ∷ rest

unfoldable pub new_episode : ℕ → ℕ → ℕ → ℕ → Episode
new_episode id now mal_id number = record {
  id = id;
  mal_id = mal_id;
  number = number;
  state = missing;
  file_path = none;
  size = none;
  torrent_id = none;
  last_checked = some now;
}

-- The id of the episode's row; a show that is not there fails the transaction.
unfoldable pub ensure_episode : ℕ → ℕ → ℕ → Db → Result ℕ × Db
unfolding find_number checked new_episode has_show
ensure_episode now mal_id number db = elim (find_number mal_id number db.episodes) [
  | some id ↦ (ok id, record db { episodes = checked now mal_id number db.episodes })
  | none ↦
      if has_show mal_id db.shows
      then (
        ok db.next_episode,
        record db {
          episodes = db.episodes ++ new_episode db.next_episode now mal_id number ∷ [];
          next_episode = db.next_episode + 1;
        },
      )
      else (err (Error.db (codes "FOREIGN KEY constraint failed")), db)
]
