-- ===== src/Worker/Add.antt =====
-- The step `add` (core/crates/genrl-core/src/worker/steps_acquire.rs, `add_step`, and helpers.rs).
use genrl_downloader.Prelude.{
  ℕ, Bool, true, false, not, ◌&&◌, ◌||◌, Option, none, some, List, [], ◌∷◌, ◌==◌, leb, ltb,
  if◌then◌else◌,
}
use genrl_downloader.Text.{Text, codes, text_eq, contains, to_ascii_lowercase}
use genrl_downloader.Error.{Error, ok, err, is_connection_failure}
use genrl_downloader.Models.JobState.{JobState}
use genrl_downloader.Models.JobKind.{kind_eq}
use genrl_downloader.Models.JobKind
use genrl_downloader.Score.{Candidate}
use genrl_downloader.Questions.{Payload, match_review, MatchOption, use_this, Answer, Question}
use genrl_downloader.Jobs.{Job, EpisodeState, Episode, missing, downloading, Db, find_job}
use genrl_downloader.Jobs.Move.{default}
use genrl_downloader.Jobs.Enqueue.{enqueue_search}
use genrl_downloader.Worker.Run.{Run, ◌>>=◌, ◌>>◌, return, lift, reads, writes}
use genrl_downloader.Worker.World.{World, ChosenTorrent}
use genrl_downloader.Worker.Inputs.{load_inputs, expected_show, candidate_rows}
use genrl_downloader.Worker.Inbox.{torrent_id_of}
use genrl_downloader.Worker.Acquire.{is_outage}
use genrl_downloader.Worker.Helpers.{
  context, logs, moves, block, ask, fail_or_reschedule, chosen_torrent, ensure_service_notice,
  blocking_reason, required_bytes,
}

abbrev pub too_large : Text
too_large = codes "Download exceeds 2 GB. Confirm this release before downloading."

abbrev pub large_bytes : ℕ
large_bytes = 2_000_000_000

unfoldable pub offers : ChosenTorrent → List MatchOption → Bool
offers t [] = false
offers t (o ∷ os) = (text_eq o.info_hash t.info_hash && o.size_bytes == t.size_bytes) || offers t os

unfoldable pub is_review_of : ChosenTorrent → Payload → Bool
unfolding offers
is_review_of t p = elim p [
  | match_review _ options reason ↦ text_eq reason too_large && offers t options
  | _ ↦ false
]

unfoldable pub chooses : ChosenTorrent → Option Answer → Bool
chooses t none = false
chooses t (some a) = elim a.choice [ use_this hash ↦ text_eq hash t.info_hash | _ ↦ false ]

-- An answered question of the job in which the user took this release, at this size.
unfoldable pub approves : ℕ → ChosenTorrent → Question → Bool
unfolding is_review_of chooses
approves id t q =
    elim q.job_id [ none ↦ false | some i ↦ i == id ]
    && is_review_of t q.payload
    && chooses t q.answer

unfoldable pub approved : ℕ → ChosenTorrent → List Question → Bool
unfolding approves
approved id t [] = false
approved id t (q ∷ qs) = approves id t q || approved id t qs

unfoldable pub large_option : Candidate → MatchOption
large_option c = record {
  info_hash = c.info_hash;
  name = c.release.raw;
  magnet = c.magnet;
  group = c.release.group;
  resolution = c.release.resolution;
  seeders = c.seeders;
  size_bytes = c.size_bytes;
  signal = 0;
  ranking = 0;
  title_ratio = 0;
  why = too_large ∷ [];
}

unfoldable pub large_options : Text → List Candidate → List MatchOption
unfolding large_option
large_options hash [] = []
large_options hash (c ∷ cs) =
    let rest = large_options hash cs in
    if text_eq c.info_hash hash then large_option c ∷ rest else rest

-- Ask, and park the job.
unfoldable pub ask_and_park : World → Job → ℕ → Payload → Run Bool
unfolding ask moves
ask_and_park w j mal_id payload = do
  ask w j mal_id payload too_large
  moves w j JobState.needs_input too_large default
  return false

-- Ask for a consent to the size.
unfoldable pub ask_consent : World → Job → ℕ → ChosenTorrent → Run Bool
unfolding load_inputs candidate_rows large_options ask_and_park expected_show
ask_consent w j mal_id t = do
  inputs ← (λ db. (load_inputs w.regex w.chars mal_id db, db))
  rows ← reads (candidate_rows w.parse_release mal_id)
  ask_and_park w j mal_id
      (match_review (expected_show inputs) (large_options t.info_hash rows) too_large)

unfoldable pub confirm_large_download : World → Job → ℕ → ChosenTorrent → Run Bool
unfolding approved ask_consent
confirm_large_download w j mal_id t db =
    if leb t.size_bytes large_bytes || approved j.id t db.questions
    then (ok true, db)
    else ask_consent w j mal_id t db

unfoldable pub waits_for_torrent : ℕ → Episode → Bool
waits_for_torrent mal_id e =
    e.mal_id == mal_id && elim e.state [ missing ↦ true | EpisodeState.queued ↦ true | _ ↦ false ]

-- `UPDATE episodes … WHERE mal_id = ?2 AND state IN ('missing', 'queued')`
unfoldable pub mark_downloading : Option ℕ → ℕ → List Episode → List Episode
unfolding waits_for_torrent
mark_downloading torrent mal_id [] = []
mark_downloading torrent mal_id (e ∷ es) =
    let rest = mark_downloading torrent mal_id es in
    if waits_for_torrent mal_id e
    then record e { state = downloading; torrent_id = torrent } ∷ rest
    else e ∷ rest

unfoldable pub is_of_show : ℕ → ℕ → List Episode → Bool
is_of_show mal_id episode_id [] = false
is_of_show mal_id episode_id (e ∷ es) =
    (e.id == episode_id && e.mal_id == mal_id) || is_of_show mal_id episode_id es

unfoldable pub is_covered : ℕ → ℕ → List Episode → Job → Bool
unfolding is_of_show
is_covered id mal_id es j =
    not (j.id == id) && is_of_show mal_id j.episode_id es && kind_eq j.kind JobKind.search

-- `DELETE FROM jobs`: the searches that the batch makes needless.
unfoldable pub delete_covered : ℕ → ℕ → List Episode → List Job → List Job
unfolding is_covered
delete_covered id mal_id es [] = []
delete_covered id mal_id es (j ∷ js) =
    let rest = delete_covered id mal_id es js in
    if is_covered id mal_id es j then rest else j ∷ rest

-- `ON DELETE CASCADE`: a question goes with its job.
unfoldable pub without_covered : ℕ → ℕ → List Episode → List Job → List Question → List Question
unfolding is_covered find_job
without_covered id mal_id es js [] = []
without_covered id mal_id es js (q ∷ qs) =
    let rest = without_covered id mal_id es js qs in
    let gone : Bool = elim q.job_id [
      | none ↦ false
      | some k ↦ elim (find_job k js) [ none ↦ false | some j ↦ is_covered id mal_id es j ]
    ] in
    if gone then rest else q ∷ rest

unfoldable pub take_batch : Job → ℕ → ChosenTorrent → Db → Db
unfolding mark_downloading delete_covered without_covered torrent_id_of
take_batch j mal_id t db = record db {
  episodes = mark_downloading (torrent_id_of t.info_hash db) mal_id db.episodes;
  jobs = delete_covered j.id mal_id db.episodes db.jobs;
  questions = without_covered j.id mal_id db.episodes db.jobs db.questions;
}

unfoldable pub has_search : ℕ → List Job → Bool
has_search episode_id [] = false
has_search episode_id (j ∷ js) =
    (j.episode_id == episode_id && kind_eq j.kind JobKind.search) || has_search episode_id js

unfoldable pub insert_number : Episode → List Episode → List Episode
insert_number e [] = e ∷ []
insert_number e (x ∷ xs) =
    let rest = insert_number e xs in if leb e.number x.number then e ∷ x ∷ xs else x ∷ rest

-- The missing episodes of the show that no search job is for, first number first.
unfoldable pub siblings : ℕ → ℕ → List Job → List Episode → List Episode
unfolding waits_for_torrent has_search insert_number
siblings mal_id current js [] = []
siblings mal_id current js (e ∷ es) =
    let rest = siblings mal_id current js es in
    if waits_for_torrent mal_id e && not (e.id == current) && not (has_search e.id js)
    then insert_number e rest
    else rest

unfoldable pub enqueue_each : World → List Episode → Run (Unit {0})
enqueue_each w [] db = (ok tt, db)
enqueue_each w (e ∷ es) db =
    let (r, db') = enqueue_search db w.now e.id in
    elim r [ err x ↦ (err x, db') | ok _ ↦ enqueue_each w es db' ]

unfoldable pub enqueue_siblings : World → ℕ → ℕ → Run (Unit {0})
unfolding siblings enqueue_each
enqueue_siblings w mal_id current db =
    enqueue_each w (siblings mal_id current db.jobs db.episodes) db

unfoldable pub is_batch : World → ChosenTorrent → Bool
unfolding contains to_ascii_lowercase
is_batch w t =
    contains (to_ascii_lowercase t.name) (codes "batch") || (w.parse_release t.name).is_batch

unfoldable pub cover : World → Job → ℕ → ChosenTorrent → Run (Unit {0})
unfolding is_batch take_batch enqueue_siblings
cover w j mal_id t =
    if is_batch w t then writes (take_batch j mal_id t) else enqueue_siblings w mal_id j.episode_id

-- After qBittorrent has taken the torrent.
unfoldable pub added : World → Job → ℕ → ChosenTorrent → Run JobState
unfolding cover logs moves
added w j mal_id t = do
  cover w j mal_id t
  logs w j mal_id (codes "added to qBittorrent")
  moves w j JobState.monitor (codes "added") default

unfoldable pub send : World → Job → ℕ → ChosenTorrent → Run JobState
unfolding is_outage block fail_or_reschedule added
send w j mal_id t = do
  lift w.client
  elim (w.add t.magnet) [
    | ok _ ↦ added w j mal_id t
    | err e ↦
        if is_outage e
        then block w j (codes "qBittorrent refused the add")
        else fail_or_reschedule w j (codes "add failed")
  ]

-- The free space, where it is known.
unfoldable pub lacks_space : World → Text → ℕ → Bool
unfolding required_bytes
lacks_space w path size = elim (w.free_bytes path) [
  | none ↦ false
  | some free ↦ ltb free (required_bytes w size)
]

unfoldable pub add_to : World → Job → ℕ → ChosenTorrent → Text → Run JobState
unfolding block lacks_space send
add_to w j mal_id t path =
    if not (w.exists path)
    then block w j (codes "download folder is missing")
    else if not (w.writable path)
    then block w j (codes "download folder is not writable")
    else if lacks_space w path t.size_bytes
    then block w j (codes "download folder has insufficient space")
    else send w j mal_id t

unfoldable pub add_chosen : World → Job → ℕ → Option ChosenTorrent → Run JobState
unfolding moves confirm_large_download add_to
add_chosen w j mal_id none =
    moves w j JobState.choose (codes "no chosen candidate; choosing again") default
add_chosen w j mal_id (some t) = do
  consent ← confirm_large_download w j mal_id t
  if consent
      then add_to w j mal_id t (w.resolve_folder w.config.download_folder)
      else return JobState.needs_input

unfoldable pub is_auth : Error → Bool
is_auth (Error.auth _ _) = true
is_auth _ = false

unfoldable pub unusable : World → Job → ℕ → Error → Run JobState
unfolding ensure_service_notice is_auth block
unusable w j mal_id e =
    if is_connection_failure e then block w j (codes "qBittorrent is not reachable") else (do
      if is_auth e then ensure_service_notice w mal_id else return tt
      block w j (codes "qBittorrent is not usable"))

unfoldable pub add_running : World → Job → ℕ → Run JobState
unfolding unusable chosen_torrent add_chosen
add_running w j mal_id = elim w.ensure_running [
  | err e ↦ unusable w j mal_id e
  | ok version ↦ do t ← chosen_torrent j; add_chosen w j mal_id t
]

unfoldable pub add_step : World → Job → Run JobState
unfolding context blocking_reason block add_running
add_step w j = do
  c ← context j
  elim (blocking_reason w) [ some reason ↦ block w j reason | none ↦ add_running w j c.mal_id ]
