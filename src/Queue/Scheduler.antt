-- ===== src/Queue/Scheduler.antt =====
-- One tick of the scheduler (core/crates/genrl-core/src/queue/scheduler.rs). Steps run in tasks of
-- their own: what the database holds when the tick looks for jobs of a kind, and how many steps of
-- that kind have ended until then, is an argument, as are the settings and the disk's state.
pub mod Laws
use genrl_downloader.Prelude.{
  ℕ, zero, suc, ◌+◌, ◌-◌, Bool, true, false, Option, none, some, List, [], ◌∷◌, ◌++◌, ◌==◌, max,
  length, if◌then◌else◌, is_some,
}
use genrl_downloader.Text.{Text}
use genrl_downloader.Models.JobState.{JobState, is_active}
use genrl_downloader.Models.JobKind.{JobKind, kind_eq}
use genrl_downloader.Models.JobKind
use genrl_downloader.Jobs.{Job, Db}
use genrl_downloader.Jobs.Due.{due_jobs}
use genrl_downloader.Queue.Resume.{Probes, resume_blocked}

-- The settings that are read here.
pub record Settings : Type 0 where
  pub automation_on : Bool
  pub search_concurrency : ℕ
  pub active_downloads : ℕ

-- What the tick meets when it comes to a kind.
pub record Look : Type 0 where
  pub db : Db
  pub now : ℕ
  pub ended : ℕ

pub record TickReport : Type 0 where
  pub paused : Bool
  pub resource_reason : Option Text
  pub dispatched : List (JobKind × ℕ)
  pub resumed : List (ℕ × JobState)

-- The count of running steps of each kind; a missing key is 0.
abbrev pub Counts : Type 0
Counts = JobKind → ℕ

unfoldable pub limit_for : JobKind → Settings → ℕ
limit_for JobKind.search s = max s.search_concurrency 1
limit_for JobKind.finalize s = max s.search_concurrency 1
limit_for JobKind.add s = max s.active_downloads 1
limit_for JobKind.monitor s = max s.active_downloads 1

-- The count of one kind changes.
unfoldable pub with_count : JobKind → ℕ → Counts → Counts
with_count kind n counts k = if kind_eq kind k then n else counts k

-- The main steps among the due jobs.
unfoldable pub active_of : List Job → List Job
active_of [] = []
active_of (j ∷ js) = let rest = active_of js in if is_active j.state then j ∷ rest else rest

unfoldable pub picked : JobKind → List Job → List (JobKind × ℕ)
picked kind [] = []
picked kind (j ∷ js) = (kind, j.id) ∷ picked kind js

-- The loop's body for one kind; `dispatch` counts each job.
unfoldable pub dispatch_kind : Settings → JobKind → Look → Counts → List (JobKind × ℕ) × Counts
unfolding active_of picked with_count limit_for
dispatch_kind s kind look before =
    let busy = before kind - look.ended in
    let room = limit_for kind s - busy in
    let jobs = active_of (due_jobs look.db look.now (kind ∷ []) room) in
    if room == 0
    then ([], with_count kind busy before)
    else (picked kind jobs, with_count kind (busy + length jobs) before)

unfoldable pub dispatch_all :
    Settings → List JobKind → (JobKind → Look) → Counts → List (JobKind × ℕ) × Counts
unfolding dispatch_kind
dispatch_all s [] look counts = ([], counts)
dispatch_all s (kind ∷ kinds) look counts =
    let (now, counts') = dispatch_kind s kind (look kind) counts in
    let (later, counts'') = dispatch_all s kinds look counts' in (now ++ later, counts'')

abbrev pub kinds : List JobKind
kinds = JobKind.search ∷ JobKind.add ∷ JobKind.monitor ∷ JobKind.finalize ∷ []

-- `tick`, after the finished tasks are reaped: the report, the database after the resumptions, the
-- counts. `blocking` is what `blocking_reason` answers first.
unfoldable pub tick :
    Settings → Option Text → Probes → ℕ → Db → (JobKind → Look) → Counts → TickReport × Db × Counts
unfolding dispatch_all
tick s blocking probes at db look counts =
    if s.automation_on
    then elim blocking [
      | some reason ↦ (
        record { paused = false; resource_reason = some reason; dispatched = []; resumed = [] },
        db,
        counts,
      )
      | none ↦
          let (back, db') = resume_blocked probes at db in
          let (jobs, counts') = dispatch_all s kinds look counts in
          (
            record { paused = false; resource_reason = none; dispatched = jobs; resumed = back },
            db',
            counts',
          )
    ]
    else (
      record { paused = true; resource_reason = none; dispatched = []; resumed = [] },
      db,
      counts,
    )
