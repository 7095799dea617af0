-- ===== src/Queue/Reconcile.antt =====
-- Crash recovery (core/crates/genrl-core/src/queue/reconcile.rs). The answer of qBittorrent about a
-- job's torrent is an argument, the lookup of its hash included; a step that runs again runs in the
-- world that it meets.
pub mod Laws
use genrl_downloader.Prelude.{
  ℕ, true, false, Bool, Option, none, some, List, [], ◌∷◌, if◌then◌else◌,
}
use genrl_downloader.Text.{Text, codes}
use genrl_downloader.Error.{Result, ok, err}
use genrl_downloader.Models.JobState.{JobState, state_eq}
use genrl_downloader.Models.JobState
use genrl_downloader.Jobs.{Job, Db, update_job, line, record_in}
use genrl_downloader.Jobs.Due.{non_terminal_jobs}
use genrl_downloader.Worker.World.{World}
use genrl_downloader.Worker.Finish.{step}
use genrl_downloader.Jobs.Move.{transition, default}

-- The torrent in qBittorrent: not there, there, or there and complete.
pub data TorrentInfo : Type 0 where
  gone running complete : TorrentInfo

pub data Plan : Type 0 where
  waits redo : Plan
  -- where to and why
  goes : JobState → Text → Plan

pub data Outcome : Type 0 where
  -- in `waiting`
  waiting : JobState → Outcome
  -- `engine.step`
  redone : Outcome
  -- in `resumed`: from and to
  resumed : JobState → JobState → Outcome

pub add_plan : TorrentInfo → Plan
add_plan complete = goes JobState.finalize (codes "the download finished while the app was down")
add_plan running = goes JobState.monitor (codes "the download is running again")
add_plan gone = redo

pub monitor_plan : TorrentInfo → Plan
monitor_plan complete =
    goes JobState.finalize (codes "the download finished while the app was down")
monitor_plan running = goes JobState.monitor (codes "still downloading; monitoring resumed")
monitor_plan gone =
    goes JobState.search (codes "the torrent left qBittorrent; searching for the next candidate")

asked : (TorrentInfo → Plan) → Result TorrentInfo → Result Plan
asked f (err e) = err e
asked f (ok info) = ok (f info)

-- The `match job.state`.
unfoldable pub plan_for : JobState → Option ℕ → Result TorrentInfo → Result Plan
unfolding asked add_plan monitor_plan
plan_for JobState.search torrent answer = ok waits
plan_for JobState.choose torrent answer = ok waits
plan_for JobState.add (some _) answer = asked add_plan answer
plan_for JobState.add none answer =
    ok (goes JobState.choose (codes "no candidate was chosen before the kill; choosing again"))
plan_for JobState.monitor (some _) answer = asked monitor_plan answer
plan_for JobState.monitor none answer =
    ok (goes JobState.choose (codes "no torrent was being watched; choosing again"))
plan_for JobState.finalize torrent answer = ok redo
plan_for _ torrent answer = ok waits

-- `restart_stall_timer`, for a torrent that is still watched.
restarted : Db → ℕ → Job → JobState → Db
unfolding update_job
restarted db now j JobState.monitor =
    if state_eq j.state JobState.monitor
    then record db {
      jobs = update_job j.id (λ r. record r { last_progress_at = some now }) db.jobs;
    }
    else db
restarted db now j to = db

moved : Job → JobState → Result JobState × Db → Result Outcome × Db
moved j to (err e, db) = (err e, db)
moved j to (ok _, db) = (ok (resumed j.state to), db)

rerun : Result (JobState × JobState) × Db → Result Outcome × Db
rerun (err e, db) = (err e, db)
rerun (ok _, db) = (ok redone, db)

follow : World → Db → Job → Result Plan → Result Outcome × Db
unfolding restarted moved rerun
follow w db j (err e) = (err e, db)
follow w db j (ok waits) = (ok (waiting j.state), db)
follow w db j (ok redo) = rerun (step w j.id db)
follow w db j (ok (goes to why)) =
    let db' = restarted db w.now j to in
    if state_eq j.state to
    then (ok (waiting to), db')
    else moved j to (transition db' w.now j.id to why default)

-- One pass of the loop over the jobs that are not done.
unfoldable pub reconcile_job : World → Db → Job → Result TorrentInfo → Result Outcome × Db
unfolding follow
reconcile_job w db j answer = follow w db j (plan_for j.state j.torrent_id answer)

-- What one job meets.
abbrev pub Meets : Type 0
Meets = Job → World × Result TorrentInfo

abbrev pub after :
    Result Outcome × Db → (Db → Result (List Outcome) × Db) → Result (List Outcome) × Db
after (err e, db) rest = (err e, db)
after (ok outcome, db) rest = elim (rest db).0 [
  | err e ↦ (err e, (rest db).1)
  | ok outcomes ↦ (ok (outcome ∷ outcomes), (rest db).1)
]

-- The loop, which an error ends; what was written before stays.
unfoldable pub reconcile_each : Meets → Db → List Job → Result (List Outcome) × Db
reconcile_each meets db [] = (ok [], db)
reconcile_each meets db (j ∷ js) =
    after (reconcile_job (meets j).0 db j (meets j).1) (λ db'. reconcile_each meets db' js)

reported : ℕ → Result (List Outcome) × Db → Result (List Outcome) × Db
reported now (err e, db) = (err e, db)
reported now (ok outcomes, db) = (
  ok outcomes,
  record_in (record { at = now; job_id = none; mal_id = none; message = line (codes "reconcile") })
      db,
)

-- The health of qBittorrent comes first.
pub reconcile : Result (Unit {0}) → Meets → ℕ → Db → Result (List Outcome) × Db
unfolding reported
reconcile (err e) meets now db = (err e, db)
reconcile (ok _) meets now db = reported now (reconcile_each meets db (non_terminal_jobs db))
