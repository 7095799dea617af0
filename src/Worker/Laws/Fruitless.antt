-- ===== src/Worker/Laws/Fruitless.antt =====
-- A search that finds nothing, step after step (core/crates/genrl-core/src/worker/steps_acquire.rs,
-- `search_step`, and helpers.rs, `fail_or_reschedule`).
use genrl_downloader.Prelude.{
  ℕ, ◌+◌, ◌<◌, true, false, ◌≡◌, refl, sym, ap, ◌∙◌, subst, some, List, [], ◌∷◌, ◌++◌, All, All-map,
  arith,
}
use genrl_downloader.Text.{Text, codes}
use genrl_downloader.Error.{ok}
use genrl_downloader.Models.JobState.{JobState}
use genrl_downloader.Rules.{Rules, for_show}
use genrl_downloader.Jobs.{Job, Show, noted, Db, find_job, update_job, mal_id_of, record_in}
use genrl_downloader.Jobs.Move.{reschedule}
use genrl_downloader.Jobs.Move.Rows.{find_update_self}
use genrl_downloader.Jobs.Ladder.{backoff_delay}
use genrl_downloader.Planner.Apply.Single.{find_show, is_resolved}
use genrl_downloader.Worker.World.{World, JobContext}
use genrl_downloader.Worker.Inputs.{TargetInputs, load_inputs}
use genrl_downloader.Worker.Helpers.{
  find_context, context, as_secs, gives_up, reschedules, fail_or_reschedule,
}
use genrl_downloader.Worker.Acquire.{
  resolved, search_names, found, search_nyaa, search_resolved, search_step,
}
use genrl_downloader.Worker.Finish.{run_step, state_after, step}
use genrl_downloader.Worker.Laws.Step.{found-id}
use genrl_downloader.Worker.Laws.Consent.{told_db}
use genrl_downloader.Worker.Laws.Large.Again.{named, steps}

abbrev pub no_candidates : Text
no_candidates = codes "no candidates on any of the show's names"

-- Everything is well, and Nyaa finds nothing under any of the show's names.
pub record Fruitless (w : World) (j : Job) (db : Db) : Type 0 where
  pub context_of : JobContext
  pub show_of : Show
  pub inputs : TargetInputs
  pub rules : Rules
  pub known : find_context j.episode_id db ≡ some context_of
  pub row : find_show context_of.mal_id db.shows ≡ some show_of
  pub metadata : is_resolved show_of ≡ true
  pub loaded : load_inputs w.regex w.chars context_of.mal_id db ≡ ok inputs
  pub open_ : w.would_allow ≡ true
  pub ruled : for_show w.json context_of.mal_id db.rules ≡ ok rules
  pub nothing : w.search_candidates (search_names w rules inputs) ≡ ok []
  -- more than one failure is allowed
  pub limit : 1 < w.config.max_failed_candidates

-- The job's row after a failure of its first attempt: it runs again in five seconds.
abbrev pub retried : World → Job → Job
retried w j = record j {
  next_run_at = some (w.now + 5);
  last_error = some no_candidates;
  updated_at = w.now;
}

abbrev left : World → Job → Db → Db
left w j db =
    record_in
      (record {
        at = w.now;
        job_id = some j.id;
        mal_id = mal_id_of db j;
        message = noted j.id no_candidates;
      })
      (record db { jobs = update_job j.id (retried w) db.jobs })

five_seconds : as_secs (backoff_delay 1) ≡ 5
unfolding as_secs backoff_delay
five_seconds = refl

module _ (w : World) (j : Job) (db : Db) (here : find_job j.id db.jobs ≡ some j)
    (first : j.attempts ≡ 0) (f : Fruitless w j db) where
  failed_search : search_step w j db ≡ fail_or_reschedule w j no_candidates db
  unfolding search_step context resolved search_resolved search_nyaa found
  failed_search =
      rw (f.known, search_step, context)
        (rw (f.row, f.metadata, resolved)
          (rw (f.loaded, f.open_, search_nyaa) (rw (f.ruled) (rw (f.nothing) refl))))

  delayed : (fail_or_reschedule w j no_candidates db).1 ≡ left w j db
  unfolding fail_or_reschedule gives_up reschedules reschedule record_in mal_id_of
  delayed =
      let more : gives_up w j ≡ false = ground (arith, first, f.limit) in
      rw (more, fail_or_reschedule) (rw (here, reschedules) (rw (first) (rw (five_seconds) refl)))

step-db :
    (w : World) (id : ℕ) (j : Job) (db : Db)
    → find_job id db.jobs ≡ some j
    → j.state ≡ JobState.search
    → (step w id db).1 ≡ (search_step w j db).1
unfolding step run_step
step-db w id j db e s =
    rw (e, step)
      (told_db (run_step w j db).0 (run_step w j db).1
          (λ d. (j.state, state_after j (find_job id d.jobs)))
        ∙ ap (λ x. (named w j x db).1) s)

still-Fruitless :
    (w v : World) (j : Job) (db : Db) → Fruitless v j db → Fruitless v (retried w j) (left w j db)
unfolding find_context load_inputs record_in
still-Fruitless w v j db f = record {
  context_of = f.context_of;
  show_of = f.show_of;
  inputs = f.inputs;
  rules = f.rules;
  known = f.known;
  row = f.row;
  metadata = f.metadata;
  loaded = f.loaded;
  open_ = f.open_;
  ruled = f.ruled;
  nothing = f.nothing;
  limit = f.limit;
}

moved_on :
    (w : World) (id : ℕ) (j : Job) (db : Db)
    → find_job id db.jobs ≡ some j
    → j.state ≡ JobState.search
    → j.attempts ≡ 0
    → Fruitless w j db
    → ((step w id db).1 ≡ left w j db) × (find_job id (left w j db).jobs ≡ some (retried w j))
unfolding record_in
moved_on w id j db e s first f =
    let same = found-id id db.jobs {j = j} e in
    let here = subst (λ i. find_job i db.jobs ≡ some j) (sym same) e in
    (
      step-db w id j db e s
          ∙ ap (λ r. r.1) (failed_search w j db here first f)
          ∙ delayed w j db here first f,
      subst (λ i. find_job i (left w j db).jobs ≡ some (retried w j)) same
          (find_update_self j.id (retried w) db.jobs {j = j} (λ r. refl) here),
    )

-- A job in `search` that has not failed before searches for ever, every five seconds, and never
-- asks: as long as every step finds the services well, the show's metadata there and no candidate on
-- Nyaa under any of its names, and more than one failure is allowed, then after any number of steps,
-- the last one in the world `w`, the job is still in `search` with no attempt counted and is due
-- again five seconds later, and no question was asked.
pub failures_never_give_up :
    (ws : List World) (w : World) (id : ℕ) (db : Db) (j : Job)
    → find_job id db.jobs ≡ some j
    → j.state ≡ JobState.search
    → j.attempts ≡ 0
    → All (λ v. Fruitless v j db) ws
    → Fruitless w j db
    → let db' = steps (ws ++ w ∷ []) id db in
      (find_job id db'.jobs ≡ some (retried w j)) × (db'.questions ≡ db.questions)
unfolding steps record_in
failures_never_give_up [] w id db j e s first h f =
    let (same, there) = moved_on w id j db e s first f in
    (ap (λ d. find_job id d.jobs) same ∙ there, ap (λ d. d.questions) same)
failures_never_give_up (v ∷ vs) w id db j e s first h f =
    let (same, there) = moved_on v id j db e s first h.0 in
    let next = left v j db in
    let (found_, quiet) =
      failures_never_give_up vs w id next (retried v j) there s first
        (All-map (λ u k. still-Fruitless v u j db k) vs h.1) (still-Fruitless v w j db f) in
    let moved = ap (λ d. steps (vs ++ w ∷ []) id d) same in
    (ap (λ d. find_job id d.jobs) moved ∙ found_, ap (λ d. d.questions) moved ∙ quiet)
