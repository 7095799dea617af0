-- ===== src/Queue/Tests.antt =====
-- A tick, a recovery and a resumption of a small queue (core/crates/genrl-core/src/queue).
use genrl_downloader.Prelude.{
  ℕ, length, Option, ◌≤◌, ◌≡◌, ◌↔◌, true, false, none, some, [], ◌∷◌, All, max, arith,
}
use genrl_downloader.Text.{Text, codes}
use genrl_downloader.Error.{Error, ok, err}
use genrl_downloader.Models.JobState.{JobState}
use genrl_downloader.Models.JobKind.{JobKind}
use genrl_downloader.Jobs.{Job, Db}
use genrl_downloader.Jobs.Sample.{adding, queue, found}
use genrl_downloader.Models.Shows
use genrl_downloader.Questions.{Question, all_failed}
use genrl_downloader.Questions.Store.{expire}
use genrl_downloader.Queue.Status.{sweep}
use genrl_downloader.Queue.Status.Laws.{IsQuiet, Settled, sweep_correct}
use genrl_downloader.Queue.Reconcile.{Meets, complete, reconcile_job, reconcile_each}
use genrl_downloader.Worker.Sample.{world}
use genrl_downloader.Queue.Reconcile.Laws.{IsUnrecoverable, reconcile_fails_iff}
use genrl_downloader.Queue.Scheduler.{Settings, Look, Counts, limit_for, tick}
use genrl_downloader.Queue.Scheduler.Laws.{IsHeld, Runs, tick_within_limits, dispatched_due}
use genrl_downloader.Queue.Resume.{Probes}

abbrev meets : Meets
meets _ = (world, ok complete)

reconcile_example :
    let one = reconcile_job world queue adding (ok complete) in
    (((e : Error) × (one.0 ≡ err e)) ↔ IsUnrecoverable world queue adding (ok complete))
    × ((e : Error)
        → one.0 ≡ err e
        → reconcile_each meets queue (adding ∷ adding ∷ []) ≡ (err e, one.1))
reconcile_example = reconcile_fails_iff meets queue adding (adding ∷ []) found (ground arith)

abbrev settings : Settings
settings = record { automation_on = true; search_concurrency = 2; active_downloads = 3 }

abbrev no_reason : Option Text
no_reason = none

abbrev look : JobKind → Look
look _ = record { db = queue; now = 40; ended = 0 }

abbrev busy : Counts
busy _ = 1

abbrev parked : Job
parked = record adding {
  state = JobState.blocked;
  next_run_at = some 60;
  last_error = some (codes "Nyaa is down");
  blocked_from = some JobState.add;
}

abbrev waiting : Db
waiting = record queue { jobs = parked ∷ [] }

abbrev probes : Probes
probes = record { metadata = λ ep. true; nyaa = λ id. false; blocking = none }

tick_within_limits_example :
    (tick settings no_reason probes 60 waiting look busy).2 JobKind.add
    ≤ max (limit_for JobKind.add settings) (busy JobKind.add)
tick_within_limits_example =
    tick_within_limits settings no_reason probes 60 waiting look busy JobKind.add

dispatched_due_example :
    let (report, db', _) = tick settings no_reason probes 60 waiting look busy in
    All (Runs look) report.dispatched
    × (IsHeld settings no_reason
        → (report.dispatched ≡ []) × (report.resumed ≡ []) × (db' ≡ waiting))
dispatched_due_example = dispatched_due settings no_reason probes 60 waiting look busy

abbrev overdue : Question
overdue = record {
  id = 1;
  job_id = some 7;
  mal_id = some 21;
  kind = Shows.all_failed;
  payload = all_failed 3;
  answer = none;
  created_at = 10;
  expires_at = some 30;
}

abbrev unanswered : Db
unanswered = record queue {
  jobs = record adding { state = JobState.needs_input } ∷ [];
  questions = overdue ∷ [];
}

sweep_correct_example :
    let past = (expire unanswered 40).0 in
    let (r, db') = sweep unanswered 40 in
    ((m : ℕ) × (r ≡ ok m) × (m ≤ length past))
    × All (Settled db') past
    × ((k : ℕ) → IsQuiet k unanswered → IsQuiet k db')
sweep_correct_example = sweep_correct unanswered 40
