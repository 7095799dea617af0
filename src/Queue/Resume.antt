-- ===== src/Queue/Resume.antt =====
-- Blocked jobs whose blocker cleared (`Scheduler::resume_blocked`,
-- core/crates/genrl-core/src/queue/scheduler.rs). The list of blocked jobs is read without an error.
pub mod Laws
use genrl_downloader.Prelude.{
  ℕ, Bool, true, false, ◌||◌, Option, none, some, List, [], ◌∷◌, ◌++◌, if◌then◌else◌, unwrap_or,
}
use genrl_downloader.Text.{Text, codes, starts_with, contains}
use genrl_downloader.Error.{Result, ok, err}
use genrl_downloader.Models.JobState.{JobState}
use genrl_downloader.Models.JobState
use genrl_downloader.Jobs.{Job, Db}
use genrl_downloader.Jobs.Due.{list_jobs}
use genrl_downloader.Jobs.Move.{transition, default}

-- What the probes answer.
pub record Probes : Type 0 where
  -- the show of the episode has its metadata and a title
  pub metadata : ℕ → Bool
  -- `would_allow` of Nyaa, when the job of that id is looked at
  pub nyaa : ℕ → Bool
  -- `blocking_reason`
  pub blocking : Option Text

is_clear : Option Text → Bool
is_clear none = true
is_clear (some _) = false

unfoldable pub cleared : Probes → Job → Text → Bool
unfolding is_clear
cleared p j reason =
    if starts_with reason (codes "Metadata unresolved")
    then p.metadata j.episode_id
    else if contains reason (codes "Nyaa")
    then p.nyaa j.id
    else if contains reason (codes "space") || contains reason (codes "folder")
    then is_clear p.blocking
    else true

-- After the `match jobs::transition(…)`: a refused move is skipped.
pushed : ℕ → JobState → Result JobState × Db → List (ℕ × JobState) × Db
pushed id from (ok _, db) = ((id, from) ∷ [], db)
pushed id from (err _, db) = ([], db)

unfoldable pub resume_job : Probes → ℕ → Job → Db → List (ℕ × JobState) × Db
unfolding pushed
resume_job p at j db = elim j.blocked_from [
  | none ↦ ([], db)
  | some from ↦
      let reason = unwrap_or j.last_error [] in
      if cleared p j reason
      then pushed j.id from (transition db at j.id from (codes "resumed after: " ++ reason) default)
      else ([], db)
]

unfoldable pub resume_all : Probes → ℕ → List Job → Db → List (ℕ × JobState) × Db
unfolding resume_job
resume_all p at [] db = ([], db)
resume_all p at (j ∷ js) db =
    let (out, db') = resume_job p at j db in
    let (more, db'') = resume_all p at js db' in (out ++ more, db'')

unfoldable pub resume_blocked : Probes → ℕ → Db → List (ℕ × JobState) × Db
unfolding resume_all
resume_blocked p at db = resume_all p at (list_jobs db (some JobState.blocked) 512) db
