-- ===== src/Planner/Apply/Single.antt =====
-- Queueing one show, or one episode of it (core/crates/genrl-core/src/planner/apply.rs,
-- `plan_single`). An episode number is in tenths.
use genrl_downloader.Prelude.{
  ℕ, zero, suc, ◌+◌, ◌*◌, Bool, true, false, not, ◌&&◌, ◌||◌, Option, none, some, List, [], ◌∷◌,
  ◌==◌, ltb, if◌then◌else◌, length, unwrap_or,
}
use genrl_downloader.Text.{codes, text_eq, trim, folded}
use genrl_downloader.Error.{Error, Result, ok, err, other}
use genrl_downloader.Filename.Normalize.{is_empty}
use genrl_downloader.Models.Shows.{ListStatus, finished, parse_airing_status}
use genrl_downloader.Rules.{for_show}
use genrl_downloader.Jobs.{Show, Episode, done, Db}
use genrl_downloader.Planner.{ListEntry, airing_finished}
use genrl_downloader.Planner.Preview.{is_episode}
use genrl_downloader.Planner.Rows.{upsert_show, upsert_names, ensure_episode}
use genrl_downloader.Planner.Apply.{Outside, queue_episode}

unfoldable pub find_show : ℕ → List Show → Option Show
find_show id [] = none
find_show id (s ∷ ss) = if s.mal_id == id then some s else find_show id ss

unfoldable pub is_resolved : Show → Bool
unfolding folded trim is_empty
is_resolved s =
    (text_eq s.metadata_status (codes "ready") || text_eq s.metadata_status (codes "partial"))
    && not (is_empty (trim s.title))
    && not (text_eq (folded s.title) (codes "unknown"))

unfoldable pub entry_of : Show → ListEntry
entry_of s = record {
  mal_id = s.mal_id;
  title = s.title;
  english_title = s.english_title;
  list_status = ListStatus.watching;
  watched_count = 0;
  total_episodes = s.total_episodes;
  start_year = s.start_year;
  auto = true;
  episode_offset = s.episode_offset;
  names = s.title ∷ [];
  franchise = s.mal_id;
  season = s.season;
}

-- The count in the query on `state = 'done'` is not 0.
unfoldable pub has_done : ℕ → ℕ → List Episode → Bool
unfolding is_episode
has_done mal_id number [] = false
has_done mal_id number (e ∷ es) =
    is_episode mal_id number e && elim e.state [ done ↦ true | _ ↦ false ]
    || has_done mal_id number es

-- The numbers from `i` on, `count` of them, that are not done.
unfoldable pub not_done : ℕ → List Episode → ℕ → ℕ → List ℕ
unfolding has_done
not_done mal_id es i zero = []
not_done mal_id es i (suc count) =
    let rest = not_done mal_id es (i + 1) count in
    if has_done mal_id (i * 10) es then rest else i * 10 ∷ rest

unfoldable pub eps_to_queue : ListEntry → Option ℕ → List Episode → List ℕ
unfolding not_done
eps_to_queue e (some number) es = number ∷ []
eps_to_queue e none es = not_done e.mal_id es 1 (unwrap_or e.total_episodes 1)

unfoldable pub is_finished : Show → Bool
unfolding parse_airing_status airing_finished entry_of
is_finished s = elim s.status [
  | none ↦ airing_finished (entry_of s)
  | some text ↦ elim (parse_airing_status text) [ finished ↦ true | _ ↦ false ]
]

-- All rows of a season that is fetched as a batch.
unfoldable pub ensure_each : ℕ → ℕ → List ℕ → Db → Result (Unit {0}) × Db
unfolding ensure_episode
ensure_each now mal_id [] db = (ok tt, db)
ensure_each now mal_id (n ∷ ns) db =
    let (r, db') = ensure_episode now mal_id n db in
    elim r [ err e ↦ (err e, db') | ok _ ↦ ensure_each now mal_id ns db' ]

unfoldable pub queue_all : ℕ → ℕ → ℕ → List ℕ → Db → Result ℕ × Db
unfolding queue_episode
queue_all now mal_id queued [] db = (ok queued, db)
queue_all now mal_id queued (n ∷ ns) db =
    let (r, db') = queue_episode now mal_id n db in
    elim r [ err e ↦ (err e, db') | ok _ ↦ queue_all now mal_id (queued + 1) ns db' ]

unfoldable pub queue_first : ℕ → ℕ → List ℕ → Db → Result ℕ × Db
unfolding queue_episode
queue_first now mal_id [] db = (ok 0, db)
queue_first now mal_id (n ∷ ns) db =
    let (r, db') = queue_episode now mal_id n db in
    elim r [ err e ↦ (err e, db') | ok _ ↦ (ok 1, db') ]

unfoldable pub queue_batch : ℕ → ℕ → List ℕ → Db → Result ℕ × Db
unfolding ensure_each queue_first
queue_batch now mal_id ns db =
    let (r, db') = ensure_each now mal_id ns db in
    elim r [ err e ↦ (err e, db') | ok _ ↦ queue_first now mal_id ns db' ]

unfoldable pub is_none {ℓ} : {A : Type ℓ} → Option A → Bool
is_none none = true
is_none (some _) = false

unfoldable pub plan_show : Outside → ℕ → Show → Option ℕ → Db → Result ℕ × Db
unfolding entry_of eps_to_queue is_finished queue_batch queue_all is_none upsert_show upsert_names
plan_show outside now s target db =
    let db' = upsert_names outside.chars (entry_of s) (upsert_show (entry_of s) db) in
    let ns = eps_to_queue (entry_of s) target db'.episodes in
    elim (for_show outside.json s.mal_id db'.rules) [
      | err e ↦ (err e, db')
      | ok rules ↦
          if is_none target
            && ltb 1 (length ns)
            && rules.prefer_batch_when_finished
            && is_finished s
          then queue_batch now s.mal_id ns db'
          else queue_all now s.mal_id 0 ns db'
    ]

-- Queue an episode, or the whole season, of one show; how many jobs were asked for.
unfoldable pub plan_single : Outside → ℕ → ℕ → Option ℕ → Db → Result ℕ × Db
unfolding find_show is_resolved plan_show is_none
plan_single outside now mal_id target db = elim (find_show mal_id db.shows) [
  | none ↦ (err (Error.db (codes "Query returned no rows")), db)
  | some s ↦
      if not (is_resolved s) || (is_none target && (unwrap_or s.total_episodes 0 == 0))
      then (err (other (codes "Metadata unresolved")), db)
      else plan_show outside now s target db
]
