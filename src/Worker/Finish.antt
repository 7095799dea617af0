-- ===== src/Worker/Finish.antt =====
-- The steps `monitor` and `finalize` (core/crates/genrl-core/src/worker/steps_finish.rs), and one
-- step of any job (engine.rs, `Engine::step`).
use genrl_downloader.Prelude.{
  ℕ, ◌+◌, ◌-◌, ◌*◌, Bool, true, false, not, ◌&&◌, ◌||◌, Option, none, some, ◌==◌, leb, ltb,
  if◌then◌else◌, unwrap_or,
}
use genrl_downloader.Text.{Text, codes}
use genrl_downloader.Error.{Error, Result, ok, err, is_transient, other}
use genrl_downloader.Models.JobState.{JobState}
use genrl_downloader.Jobs.{Job, find_job}
use genrl_downloader.Jobs.Due.{note_progress}
use genrl_downloader.Jobs.Move.{default}
use genrl_downloader.Jobs.Enqueue.{reject_candidate}
use genrl_downloader.Planner.Apply.Single.{find_show}
use genrl_downloader.Worker.Episodes.{mark_done}
use genrl_downloader.Worker.Run.{Run, ◌>>=◌, ◌>>◌, return, lift, reads, writes, row}
use genrl_downloader.Worker.World.{
  World, ChosenTorrent, TorrentInfo, is_complete, FinalizeOutcome, filed, needs_input,
  monitor_poll_secs,
}
use genrl_downloader.Worker.Acquire.{is_outage, search_step, choose_step}
use genrl_downloader.Worker.Add.{lacks_space, add_step}
use genrl_downloader.Worker.Helpers.{
  context, logs, moves, block, fail_or_reschedule, next_candidate, chosen_torrent, reschedules,
}

-- Progress since the job's row was written.
unfoldable pub has_moved : Job → TorrentInfo → Bool
has_moved j t = ltb j.progress t.progress

-- In seconds: two minutes without a seeder.
unfoldable pub stall_timeout : World → TorrentInfo → ℕ
stall_timeout w t = if t.num_seeds == 0 then 120 else w.config.stall_timeout_min * 60

unfoldable pub is_stalled : World → Job → TorrentInfo → Bool
unfolding stall_timeout
is_stalled w j t = leb (stall_timeout w t) (w.now - unwrap_or j.last_progress_at j.updated_at)

unfoldable pub poll_again : World → Job → Run JobState
unfolding reschedules monitor_poll_secs
poll_again w j = do
  reschedules w j (w.now + monitor_poll_secs) (codes "downloading")
  return JobState.monitor

-- Remove the torrent, mark the candidate tried, and look for the next.
unfoldable pub drop_stalled : World → Job → ℕ → ChosenTorrent → Run JobState
unfolding next_candidate
drop_stalled w j mal_id chosen = do
  writes (λ db. (reject_candidate db chosen.info_hash).1)
  next_candidate w j mal_id (codes "no progress")

unfoldable pub watch : World → Job → ℕ → ChosenTorrent → TorrentInfo → Run JobState
unfolding is_complete moves has_moved is_stalled drop_stalled poll_again
watch w j mal_id chosen t =
    if is_complete t then moves w j JobState.finalize (codes "finished") default else (do
      writes (λ db. note_progress db w.now j.id t.progress (has_moved j t))
      if not (has_moved j t) && is_stalled w j t
          then drop_stalled w j mal_id chosen
          else poll_again w j)

-- What qBittorrent says about the torrent.
unfoldable pub monitored :
    World → Job → ℕ → ChosenTorrent → Result (Option TorrentInfo) → Run JobState
unfolding is_outage block fail_or_reschedule next_candidate watch
monitored w j mal_id chosen (err e) =
    if is_outage e
    then block w j (codes "qBittorrent unreachable while monitoring")
    else fail_or_reschedule w j (codes "monitor failed")
monitored w j mal_id chosen (ok none) =
    next_candidate w j mal_id (codes "the torrent left qBittorrent")
monitored w j mal_id chosen (ok (some t)) = watch w j mal_id chosen t

unfoldable pub monitor_chosen : World → Job → ℕ → Option ChosenTorrent → Run JobState
unfolding moves monitored
monitor_chosen w j mal_id none =
    moves w j JobState.choose (codes "no torrent to monitor; choosing again") default
monitor_chosen w j mal_id (some chosen) = do
  lift w.client
  monitored w j mal_id chosen (w.get_torrent chosen.info_hash)

unfoldable pub monitor_step : World → Job → Run JobState
unfolding context chosen_torrent monitor_chosen
monitor_step w j = do c ← context j; chosen ← chosen_torrent j; monitor_chosen w j c.mal_id chosen

-- The file or the folder is there, and a file has the torrent's size.
unfoldable pub verified : World → Text → ℕ → Bool
verified w path size =
    if w.is_dir path
    then w.has_entries path
    else elim (w.file_len path) [ none ↦ false | some n ↦ n == size || size == 0 ]

unfoldable pub own : World → Job → ℕ → Text → ℕ → Run JobState
unfolding mark_done logs moves
own w j mal_id path size = do
  writes (mark_done j.episode_id path size)
  if w.config.remove_when_finished then lift w.client else return tt
  logs w j mal_id (codes "verified and filed")
  moves w j JobState.done (codes "episode owned") default

unfoldable pub is_io : Error → Bool
is_io (Error.io _) = true
is_io _ = false

unfoldable pub after_filing : World → Job → ℕ → ℕ → Result FinalizeOutcome → Run JobState
unfolding own moves is_io block fail_or_reschedule
after_filing w j mal_id size (ok (filed path)) = own w j mal_id path size
after_filing w j mal_id size (ok needs_input) =
    moves w j JobState.needs_input (codes "destination file exists; waiting for user choice")
      default
after_filing w j mal_id size (err e) =
    if is_transient e || is_io e
    then block w j (codes "library step could not file it")
    else fail_or_reschedule w j (codes "finalize failed")

unfoldable pub file_it : World → Job → ℕ → Text → ℕ → Run JobState
unfolding after_filing
file_it w j mal_id path size = do
  let done = w.finalize j path size
  writes done.1
  after_filing w j mal_id size done.0

unfoldable pub file_into : World → Job → ℕ → Text → ℕ → Text → Run JobState
unfolding block lacks_space file_it
file_into w j mal_id path size folder =
    if not (w.writable folder)
    then block w j (codes "destination folder is not writable")
    else if lacks_space w folder size
    then block w j (codes "destination folder has insufficient space")
    else file_it w j mal_id path size

-- The folder is there, or is made now.
unfoldable pub made_folder : World → Text → Bool
made_folder w folder =
    w.exists folder || elim (w.create_dir_all folder) [ ok _ ↦ true | err _ ↦ false ]

unfoldable pub prepare : World → Job → ℕ → Text → ℕ → Run JobState
unfolding find_show made_folder block file_into
prepare w j mal_id path size = do
  _ ← (λ db. (row (find_show mal_id db.shows), db))
  folder ← lift (w.show_folder mal_id)
  if made_folder w folder
      then file_into w j mal_id path size folder
      else block w j (codes "destination folder could not be created")

unfoldable pub verify : World → Job → ℕ → Text → ℕ → Run JobState
unfolding verified fail_or_reschedule prepare
verify w j mal_id path size =
    if verified w path size
    then prepare w j mal_id path size
    else fail_or_reschedule w j (codes "does not verify against the torrent")

-- qBittorrent has forgotten the torrent: the file on disk counts, if it has a byte.
unfoldable pub forgotten : World → Job → ℕ → ChosenTorrent → Run JobState
unfolding moves verify
forgotten w j mal_id chosen =
    let path = w.join w.config.download_folder chosen.name in
    if ltb 0 (unwrap_or (w.file_len path) 0)
    then verify w j mal_id path (unwrap_or (w.file_len path) 0)
    else moves w j JobState.search (codes "the finished file is gone; searching again") default

unfoldable pub still_waiting : World → Job → Run JobState
unfolding reschedules monitor_poll_secs
still_waiting w j = do
  reschedules w j (w.now + monitor_poll_secs) (codes "still downloading; waiting")
  return JobState.finalize

unfoldable pub finished :
    World → Job → ℕ → ChosenTorrent → Result (Option TorrentInfo) → Run JobState
unfolding is_outage block fail_or_reschedule is_complete verify still_waiting forgotten
finished w j mal_id chosen (err e) =
    if is_outage e
    then block w j (codes "qBittorrent unreachable while verifying")
    else fail_or_reschedule w j (codes "verify failed")
finished w j mal_id chosen (ok (some t)) =
    if is_complete t then verify w j mal_id t.content_path t.size else still_waiting w j
finished w j mal_id chosen (ok none) = forgotten w j mal_id chosen

unfoldable pub finalize_chosen : World → Job → ℕ → Option ChosenTorrent → Run JobState
unfolding moves finished
finalize_chosen w j mal_id none =
    moves w j JobState.search (codes "nothing to finalize; searching again") default
finalize_chosen w j mal_id (some chosen) = do
  lift w.client
  finished w j mal_id chosen (w.get_torrent chosen.info_hash)

unfoldable pub finalize_step : World → Job → Run JobState
unfolding context chosen_torrent finalize_chosen
finalize_step w j = do c ← context j; chosen ← chosen_torrent j; finalize_chosen w j c.mal_id chosen

-- The step that the job's state names.
unfoldable pub run_step : World → Job → Run JobState
unfolding search_step choose_step add_step monitor_step finalize_step
run_step w j = elim j.state [
  | JobState.search ↦ search_step w j
  | JobState.choose ↦ choose_step w j
  | JobState.add ↦ add_step w j
  | JobState.monitor ↦ monitor_step w j
  | JobState.finalize ↦ finalize_step w j
  | _ ↦ lift (err (other (codes "only the five main steps run work")))
]

unfoldable pub state_after : Job → Option Job → JobState
state_after j none = j.state
state_after j (some j') = j'.state

-- From which state to which.
unfoldable pub step : World → ℕ → Run (JobState × JobState)
unfolding run_step state_after
step w id db = elim (find_job id db.jobs) [
  | none ↦ (err (other (codes "no job with that id")), db)
  | some j ↦
      (do _ ← run_step w j; reads (λ db'. (j.state, state_after j (find_job id db'.jobs)))) db
]
