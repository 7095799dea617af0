-- ===== src/Queue/Status.antt =====
-- Expiry and the summary (core/crates/genrl-core/src/queue/status.rs). The map of counts is a
-- function; `usize::MAX` is no limit below the number of rows.
pub mod Laws
use genrl_downloader.Prelude.{
  ℕ, ◌+◌, Bool, true, false, not, Option, none, some, List, [], ◌∷◌, if◌then◌else◌, length,
}
use genrl_downloader.Text.{codes}
use genrl_downloader.Error.{Error, Result, ok, err}
use genrl_downloader.Models.JobState.{JobState, state_eq, is_active}
use genrl_downloader.Questions.{Question}
use genrl_downloader.Questions.Store.{expire, open_count}
use genrl_downloader.Jobs.{Job, Db, find_job}
use genrl_downloader.Jobs.Due.{due_jobs, keep_if}
use genrl_downloader.Jobs.Move.{default, transition}
use genrl_downloader.Worker.Episodes.{mark_missing}

-- Whether the question's episode was released.
unfoldable pub failed_out : ℕ → Result JobState × Db → Result Bool × Db
unfolding mark_missing
failed_out episode_id (ok from, db) = (ok true, mark_missing episode_id db)
failed_out episode_id (err e, db) = (err e, db)

unfoldable pub release_job : ℕ → Job → Db → Result Bool × Db
unfolding failed_out mark_missing
release_job now j db =
    if state_eq j.state JobState.needs_input
    then failed_out j.episode_id (
        transition db now j.id JobState.failed
          (codes "question expired; the episode is missing again")
          (record default { reset_attempts = true }))
    else if state_eq j.state JobState.failed
    then (ok true, mark_missing j.episode_id db)
    else (ok false, db)

unfoldable pub release : ℕ → Question → Db → Result Bool × Db
unfolding release_job
release now q db = elim q.job_id [
  | none ↦ (ok false, db)
  | some id ↦ elim (find_job id db.jobs) [ none ↦ (ok false, db) | some j ↦ release_job now j db ]
]

unfoldable pub count_in : ℕ → Bool → ℕ
count_in n released = if released then n + 1 else n

unfoldable pub release_each : ℕ → List Question → ℕ → Db → Result ℕ × Db
unfolding release count_in
release_each now [] n db = (ok n, db)
release_each now (q ∷ qs) n db =
    let (r, db') = release now q db in
    elim r [ err e ↦ (err e, db') | ok released ↦ release_each now qs (count_in n released) db' ]

-- Expire the questions and release their episodes; how many were released.
unfoldable pub sweep : Db → ℕ → Result ℕ × Db
unfolding release_each
sweep db now = let (past, db') = expire db now in release_each now past 0 db'

pub record QueueStatus : Type 0 where
  pub jobs_by_state : JobState → ℕ
  pub open_questions : ℕ
  pub due : ℕ

unfoldable pub status : Db → ℕ → QueueStatus
status db now = record {
  jobs_by_state = λ s. length (keep_if (λ j. state_eq j.state s) db.jobs);
  open_questions = open_count db now;
  due = length (keep_if (λ j. is_active j.state) (due_jobs db now [] (length db.jobs)));
}
