-- ===== src/Worker/Laws/Step.antt =====
-- One step of any job (core/crates/genrl-core/src/worker/engine.rs, `Engine::step`).
use genrl_downloader.Prelude.{ℕ, ◌≡◌, refl, sym, ◌⊎◌, subst, some, List, [], ◌∷◌, arith}
use genrl_downloader.Text.{codes}
use genrl_downloader.Error.{Result, ok, err, other}
use genrl_downloader.Models.JobState.{JobState}
use genrl_downloader.Jobs.{Job, Db, find_job}
use genrl_downloader.Jobs.Diagram.{Move}
use genrl_downloader.Worker.Run.{Run, after, reads, lift}
use genrl_downloader.Worker.World.{World}
use genrl_downloader.Worker.Finish.{monitor_step, finalize_step, run_step, state_after, step}
use genrl_downloader.Worker.Acquire.{search_step, choose_step}
use genrl_downloader.Worker.Add.{add_step}
use genrl_downloader.Worker.Inbox.Laws.{Stands}
use genrl_downloader.Worker.Laws.{Settled, Ends, Calm-Ends}
use genrl_downloader.Worker.Laws.Parts.{lift-Calm}
use genrl_downloader.Worker.Laws.Moves.{search_step-Ends, choose_step-Ends}
use genrl_downloader.Worker.Laws.Moves.Adding.{add_step-Ends}
use genrl_downloader.Worker.Laws.Moves.Finishing.{monitor_step-Ends, FilesOnly, finalize_step-Ends}

module _ (w : World) (files : FilesOnly w) (j : Job) (s : JobState) where
  by_state :
      (t : JobState)
      → Ends j.id s (elim t as (λ _. Run JobState) [
        | JobState.search ↦ search_step w j
        | JobState.choose ↦ choose_step w j
        | JobState.add ↦ add_step w j
        | JobState.monitor ↦ monitor_step w j
        | JobState.finalize ↦ finalize_step w j
        | _ ↦ lift (err (other (codes "only the five main steps run work")))
      ])
  by_state JobState.search = search_step-Ends w j s
  by_state JobState.choose = choose_step-Ends w j s
  by_state JobState.add = add_step-Ends w j s
  by_state JobState.monitor = monitor_step-Ends w j s
  by_state JobState.finalize = finalize_step-Ends w files j s
  by_state _ = Calm-Ends j.id s (lift-Calm w j s _)

  run_step-Ends : Ends j.id s (run_step w j)
  unfolding run_step
  run_step-Ends = by_state j.state

pub found-id : (id : ℕ) (js : List Job) {j : Job} → find_job id js ≡ some j → j.id ≡ id
unfolding find_job
found-id id [] {j} e = absurd (ground arith)
found-id id (k ∷ js) {j} e = ground (arith, found-id id js {j = j})

-- The job is there, in the state `s` or in one that follows it in the diagram, and a result tells
-- the two states.
abbrev pub Stepped : ℕ → JobState → Result (JobState × JobState) × Db → Type 0
Stepped id s r =
    (t : JobState) × ((t ≡ s) ⊎ Move s t)
    × Stands id t r.1
    × ((from to : JobState) → r.0 ≡ ok (from, to) → (from ≡ s) × (to ≡ t))

told :
    (id : ℕ) (j : Job) (r : Result JobState) (db : Db)
    → Settled id j.state db
    → Stepped id j.state
        (after (r, db) (λ _. reads (λ db'. (j.state, state_after j (find_job id db'.jobs)))))
unfolding state_after
told id j (ok x) db (t, follows, (k, found, at)) =
    (t, follows, (k, found, at), λ from to e. ground (arith, found, at, e))
told id j (err x) db (t, follows, there) = (t, follows, there, λ from to e. absurd (ground arith))

-- A step of a job that is there, whatever the services, the disk and the user's settings say, leaves
-- it there, in the state that it had or in one that the diagram allows next, and where it returns
-- states they are these two. Filing in the library is taken to leave the jobs alone.
pub step_moves_once :
    (w : World) (id : ℕ) (db : Db) (j : Job)
    → FilesOnly w
    → find_job id db.jobs ≡ some j
    → Stepped id j.state (step w id db)
unfolding step
step_moves_once w id db j files e =
    let r = run_step w j db in
    let same = found-id id db.jobs {j = j} e in
    let ended : Settled j.id j.state r.1 =
      (run_step-Ends w files j j.state).settles db
        (j, subst (λ i. find_job i db.jobs ≡ some j) (sym same) e, refl) in
    rw (e, step) (told id j r.0 r.1 (subst (λ i. Settled i j.state r.1) same ended))
