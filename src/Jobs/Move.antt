-- ===== src/Jobs/Move.antt =====
-- Moving a job (core/crates/genrl-core/src/jobs/transitions.rs). A transaction that fails leaves
-- the database as it was. Error texts leave out the numbers that the code puts into them.
pub mod Rows
pub mod Legal
pub mod Park
mod Tests
use genrl_downloader.Prelude.{
  ℕ, ◌+◌, Bool, true, false, not, ◌&&◌, Option, none, some, if◌then◌else◌,
}
use genrl_downloader.Text.{Text, codes}
use genrl_downloader.Error.{Error, Result, ok, err, other, illegal_transition}
use genrl_downloader.Models.JobState.{JobState, state_eq, is_terminal}
use genrl_downloader.Models.JobState
use genrl_downloader.Models.JobKind.{JobKind}
use genrl_downloader.Models.JobKind
use genrl_downloader.Jobs.{
  Job, Db, Message, moved, noted, find_job, update_job, mal_id_of, record_in,
}
use genrl_downloader.Jobs.Diagram.{is_allowed}

pub record MoveOptions : Type 0 where
  pub clear_torrent : Bool
  pub blocked_from : Option JobState
  pub reset_attempts : Bool
  pub count_attempt : Bool
  pub next_run_at : Option ℕ

abbrev pub default : MoveOptions
default = record {
  clear_torrent = false;
  blocked_from = none;
  reset_attempts = false;
  count_attempt = false;
  next_run_at = none;
}

-- `MoveOptions::blocked`
abbrev pub blocked_options : JobState → MoveOptions
blocked_options from = record default { blocked_from = some from }

unfoldable pub kind_of_state : JobState → JobKind
kind_of_state JobState.add = JobKind.add
kind_of_state JobState.monitor = JobKind.monitor
kind_of_state JobState.finalize = JobKind.finalize
kind_of_state _ = JobKind.search

side_kind : JobKind → Option JobState → JobKind
unfolding kind_of_state
side_kind current (some from) = kind_of_state from
side_kind current none = current

-- Which pipeline limiter a state belongs to.
unfoldable pub kind_for : JobState → JobKind → Option JobState → JobKind
unfolding side_kind
kind_for JobState.search current blocked_from = JobKind.search
kind_for JobState.choose current blocked_from = JobKind.search
kind_for JobState.add current blocked_from = JobKind.add
kind_for JobState.monitor current blocked_from = JobKind.monitor
kind_for JobState.finalize current blocked_from = JobKind.finalize
kind_for _ current blocked_from = side_kind current blocked_from

abbrev keeps_reason : JobState → Bool
keeps_reason JobState.blocked = true
keeps_reason JobState.failed = true
keeps_reason _ = false

new_attempts : MoveOptions → ℕ → ℕ
new_attempts o attempts =
    if o.reset_attempts then 0 else attempts + (if o.count_attempt then 1 else 0)

new_blocked_from : MoveOptions → JobState → Option JobState → Option JobState
new_blocked_from o to old = elim o.blocked_from [
  | some from ↦ some from
  | none ↦ if state_eq to JobState.blocked then old else none
]

new_next_run : MoveOptions → JobState → ℕ → Option ℕ
new_next_run o to at = elim o.next_run_at [
  | some next ↦ some next
  | none ↦ if state_eq to JobState.blocked then some (at + 30) else none
]

new_last_error : JobState → JobState → Text → Option Text → Option Text
new_last_error from to reason old =
    if keeps_reason to then some reason else if keeps_reason from then none else old

-- The row that the UPDATE writes.
unfoldable pub moved_row : JobState → Text → MoveOptions → ℕ → Job → Job
unfolding kind_for new_attempts new_blocked_from new_next_run new_last_error
moved_row to reason o at j = record j {
  kind = kind_for to j.kind o.blocked_from;
  state = to;
  attempts = new_attempts o j.attempts;
  next_run_at = new_next_run o to at;
  last_error = new_last_error j.state to reason j.last_error;
  torrent_id = if o.clear_torrent then none else j.torrent_id;
  updated_at = at;
  progress = if o.clear_torrent then 0 else j.progress;
  last_progress_at = if o.clear_torrent then none else j.last_progress_at;
  blocked_from = new_blocked_from o to j.blocked_from;
}

message_for : ℕ → JobState → JobState → Text → Message
message_for id from to reason =
    if state_eq from to then noted id reason else moved id from to reason

commit : Db → ℕ → ℕ → JobState → Text → MoveOptions → Job → Db
unfolding record_in mal_id_of message_for
commit db at id to reason o j =
    record_in
      (record {
        at = at;
        job_id = some id;
        mal_id = mal_id_of db j;
        message = message_for id j.state to reason;
      })
      (record db { jobs = update_job id (moved_row to reason o at) db.jobs })

move_found : Db → ℕ → ℕ → JobState → Text → MoveOptions → Option Job → Result JobState × Db
unfolding commit
move_found db at id to reason o none = (err (other (codes "no job with that id")), db)
move_found db at id to reason o (some j) =
    if is_terminal j.state
    then (err (other (codes "the job never leaves that state")), db)
    else if not (state_eq j.state to) && not (is_allowed j.state to)
    then (err (illegal_transition j.state to id), db)
    else (ok j.state, commit db at id to reason o j)

-- Move one job to a new state, recording why in the Activity log; the state it left.
unfoldable pub transition : Db → ℕ → ℕ → JobState → Text → MoveOptions → Result JobState × Db
unfolding move_found
transition db at id to reason o = move_found db at id to reason o (find_job id db.jobs)

reschedule_found : Db → ℕ → ℕ → ℕ → Text → Option Job → Result (Unit {0}) × Db
unfolding record_in mal_id_of
reschedule_found db now id at reason none = (err (other (codes "no job with that id")), db)
reschedule_found db now id at reason (some j) = (
  ok tt,
  record_in
      (record { at = now; job_id = some id; mal_id = mal_id_of db j; message = noted id reason })
      (record db {
        jobs =
            update_job id
              (λ r. record r { next_run_at = some at; last_error = some reason; updated_at = now })
              db.jobs;
      }),
)

-- Keep a job in its state and set when it may run again.
unfoldable pub reschedule : Db → ℕ → ℕ → ℕ → Text → Result (Unit {0}) × Db
unfolding reschedule_found
reschedule db now id at reason = reschedule_found db now id at reason (find_job id db.jobs)

-- Record the most recent error without moving the job.
pub record_error : Db → ℕ → Text → Db
unfolding update_job
record_error db id message = record db {
  jobs = update_job id (λ r. record r { last_error = some message }) db.jobs;
}
