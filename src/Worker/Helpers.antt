-- ===== src/Worker/Helpers.antt =====
-- What the steps share (core/crates/genrl-core/src/worker/helpers.rs, engine.rs). The texts of log
-- lines and reasons leave out numbers, names and errors.
use genrl_downloader.Prelude.{
  ℕ, ◌+◌, ◌*◌, ◌/◌, ◌-◌, ◌^◌, min, Bool, true, false, ◌||◌, Option, none, some, List, [], ◌∷◌, ◌==◌,
  leb, ltb, if◌then◌else◌,
}
use genrl_downloader.Text.{Text, codes, text_eq}
use genrl_downloader.Error.{ok}
use genrl_downloader.Models.JobState.{JobState}
use genrl_downloader.Models.Shows
use genrl_downloader.Score.Filters.{saturating_mul}
use genrl_downloader.Questions.{Payload, all_failed, service_notice, Question}
use genrl_downloader.Questions.Store
use genrl_downloader.Questions.Store.{of_kind}
use genrl_downloader.Jobs.{Job, Torrent, line, Db, record_in, find_episode}
use genrl_downloader.Jobs.Move.{MoveOptions, default, blocked_options, transition, reschedule}
use genrl_downloader.Jobs.Ladder.{backoff_delay}
use genrl_downloader.Planner.Apply.Single.{find_show}
use genrl_downloader.Worker.Run.{Run, ◌>>=◌, ◌>>◌, return, reads, writes, row}
use genrl_downloader.Worker.World.{World, JobContext, ChosenTorrent}
use genrl_downloader.Worker.Episodes.{find_row}
use genrl_downloader.Worker.Inbox.{tried, set_torrent}

unfoldable pub find_context : ℕ → Db → Option JobContext
unfolding find_row find_show
find_context episode_id db = elim (find_row episode_id db.episodes) [
  | none ↦ none
  | some e ↦ elim (find_show e.mal_id db.shows) [
    | none ↦ none
    | some s ↦ some (record { mal_id = e.mal_id; number = e.number; title = s.title })
  ]
]

unfoldable pub context : Job → Run JobContext
unfolding find_context
context j db = (row (find_context j.episode_id db), db)

-- `EventLog::info` and `warn`
unfoldable pub logs : World → Job → ℕ → Text → Run (Unit {0})
unfolding record_in
logs w j mal_id text = writes (
    record_in
      (record { at = w.now; job_id = some j.id; mal_id = some mal_id; message = line text }))

unfoldable pub moves : World → Job → JobState → Text → MoveOptions → Run JobState
moves w j to reason o db = transition db w.now j.id to reason o

unfoldable pub block : World → Job → Text → Run JobState
unfolding moves
block w j reason = moves w j JobState.blocked reason (blocked_options j.state)

unfoldable pub set_chosen : Job → Text → Run (Unit {0})
unfolding set_torrent
set_chosen j hash = writes (set_torrent j.id hash)

unfoldable pub reschedules : World → Job → ℕ → Text → Run (Unit {0})
reschedules w j at reason db = reschedule db w.now j.id at reason

unfoldable pub store_question : World → Job → ℕ → Payload → Run ℕ
unfolding Store.ask
store_question w j mal_id payload db =
    let (id, db') =
      Store.ask db (some j.id) (some mal_id) payload w.now
        (some (w.config.question_expiry_hours * 3600)) in
    (ok id, db')

-- Queue a question.
unfoldable pub ask : World → Job → ℕ → Payload → Text → Run ℕ
unfolding store_question logs
ask w j mal_id payload reason = do
  id ← store_question w j mal_id payload
  logs w j mal_id reason
  return id

unfoldable pub episode_mal_id : Job → Run ℕ
unfolding find_episode
episode_mal_id j db = (row (find_episode j.episode_id db.episodes), db)

abbrev pub counting : MoveOptions
counting = record default { count_attempt = true }

-- `duration.as_secs()`
unfoldable pub as_secs : ℕ → ℕ
as_secs nanos = nanos / 1_000_000_000

unfoldable pub gives_up : World → Job → Bool
gives_up w j = leb w.config.max_failed_candidates (j.attempts + 1)

-- Back off, or give up and ask.
unfoldable pub fail_or_reschedule : World → Job → Text → Run JobState
unfolding gives_up tried episode_mal_id ask moves reschedules as_secs backoff_delay
fail_or_reschedule w j reason =
    if gives_up w j
    then (do
      mal_id ← episode_mal_id j
      ask w j mal_id (all_failed (tried (j.attempts + 1))) reason
      moves w j JobState.failed reason counting)
    else (do
      reschedules w j (w.now + as_secs (backoff_delay (j.attempts + 1))) reason
      return j.state)

-- Move to the next candidate, or ask.
unfoldable pub next_candidate : World → Job → ℕ → Text → Run JobState
unfolding gives_up tried ask moves
next_candidate w j mal_id reason =
    if gives_up w j
    then (do
      ask w j mal_id (all_failed (tried (j.attempts + 1))) reason
      moves w j JobState.failed reason (record counting { clear_torrent = true }))
    else moves w j JobState.search reason (record counting { clear_torrent = true })

unfoldable pub find_torrent_row : ℕ → List Torrent → Option Torrent
find_torrent_row id [] = none
find_torrent_row id (t ∷ ts) = if t.id == id then some t else find_torrent_row id ts

unfoldable pub chosen_of : Option ℕ → Db → Option ChosenTorrent
unfolding find_torrent_row
chosen_of none db = none
chosen_of (some id) db = elim (find_torrent_row id db.torrents) [
  | none ↦ none
  | some t ↦ some (record {
    info_hash = t.info_hash;
    name = t.name;
    magnet = t.magnet;
    size_bytes = t.size_bytes;
  })
]

unfoldable pub chosen_torrent : Job → Run (Option ChosenTorrent)
unfolding chosen_of
chosen_torrent j = reads (chosen_of j.torrent_id)

unfoldable pub is_notice : Question → Bool
is_notice q = elim q.payload [
  | service_notice service _ ↦ text_eq service (codes "qBittorrent")
  | _ ↦ false
]

unfoldable pub any_notice : List Question → Bool
unfolding is_notice
any_notice [] = false
any_notice (q ∷ qs) = is_notice q || any_notice qs

-- One notice for the service, not one for each job.
unfoldable pub ensure_service_notice : World → ℕ → Run (Unit {0})
unfolding any_notice of_kind Store.ask
ensure_service_notice w mal_id = writes (λ db.
    if any_notice (of_kind db Shows.service_notice w.now)
    then db
    else (Store.ask db none (some mal_id)
        (service_notice (codes "qBittorrent") (codes "authentication failed")) w.now none).1)

-- `disk_floor_gb` in bytes
unfoldable pub floor_bytes : World → ℕ
unfolding saturating_mul
floor_bytes w = saturating_mul w.config.disk_floor_gb (1024 * 1024 * 1024)

unfoldable pub blocking_reason : World → Option Text
unfolding floor_bytes
blocking_reason w = elim (w.free_bytes (w.resolve_folder w.config.download_folder)) [
  | none ↦ some (codes "download folder is missing")
  | some free ↦
      if ltb free (floor_bytes w) then some (codes "free space is below the floor") else none
]

-- `saturating_add`
unfoldable pub required_bytes : World → ℕ → ℕ
unfolding floor_bytes
required_bytes w size = min (size + floor_bytes w) (2 ^ 64 - 1)
