-- ===== src/Worker/Laws/Stuck.antt =====
-- Steps that cannot make their move (core/crates/genrl-core/src/worker/steps_finish.rs and helpers.rs).
use genrl_downloader.Prelude.{ℕ, ◌≡◌, refl, sym, ap, subst, none, some}
use genrl_downloader.Text.{Text}
use genrl_downloader.Error.{Result, err, illegal_transition}
use genrl_downloader.Models.JobState.{JobState}
use genrl_downloader.Jobs.{Job, Db, find_job}
use genrl_downloader.Jobs.Diagram.{is_allowed}
use genrl_downloader.Jobs.Move.{default, transition}
use genrl_downloader.Worker.World.{World, JobContext}
use genrl_downloader.Worker.Helpers.{find_context, context, chosen_of, chosen_torrent, moves}
use genrl_downloader.Worker.Finish.{
  monitor_chosen, monitor_step, finalize_chosen, finalize_step, run_step, step,
}
use genrl_downloader.Worker.Laws.Step.{found-id}

no_monitor_choose :
    (db : Db) (at : ℕ) (j : Job) (reason : Text)
    → find_job j.id db.jobs ≡ some j
    → j.state ≡ JobState.monitor
    → transition db at j.id JobState.choose reason default
      ≡ (err (illegal_transition JobState.monitor JobState.choose j.id), db)
unfolding transition is_allowed
no_monitor_choose db at j reason e s = rw (e, transition) (rw s refl)

no_finalize_search :
    (db : Db) (at : ℕ) (j : Job) (reason : Text)
    → find_job j.id db.jobs ≡ some j
    → j.state ≡ JobState.finalize
    → transition db at j.id JobState.search reason default
      ≡ (err (illegal_transition JobState.finalize JobState.search j.id), db)
unfolding transition is_allowed
no_finalize_search db at j reason e s = rw (e, transition) (rw s refl)

module _ (w : World) (db : Db) (j : Job) (c : JobContext) (here : find_job j.id db.jobs ≡ some j)
    (known : find_context j.episode_id db ≡ some c) (lost : chosen_of j.torrent_id db ≡ none) where
  monitor_refused :
      j.state ≡ JobState.monitor
      → monitor_step w j db ≡ (err (illegal_transition JobState.monitor JobState.choose j.id), db)
  unfolding monitor_step context chosen_torrent monitor_chosen moves
  monitor_refused s =
      rw (known, monitor_step, context)
        (rw (lost, chosen_torrent) (no_monitor_choose db w.now j _ here s))

  finalize_refused :
      j.state ≡ JobState.finalize
      → finalize_step w j db ≡ (err (illegal_transition JobState.finalize JobState.search j.id), db)
  unfolding finalize_step context chosen_torrent finalize_chosen moves
  finalize_refused s =
      rw (known, finalize_step, context)
        (rw (lost, chosen_torrent) (no_finalize_search db w.now j _ here s))

abbrev refused : JobState → JobState → ℕ → Db → Result (JobState × JobState) × Db
refused from to id db = (err (illegal_transition from to id), db)

-- A job in `monitor` or in `finalize` that has no torrent, or whose torrent's row is gone, is stuck:
-- the way back that the step asks for, to `choose` or to `search`, is not on the diagram, so the
-- step fails with `IllegalTransition` and leaves the database as it was.
pub lost_torrent_stuck :
    (w : World) (id : ℕ) (db : Db) (j : Job) (c : JobContext)
    → find_job id db.jobs ≡ some j
    → find_context j.episode_id db ≡ some c
    → chosen_of j.torrent_id db ≡ none
    → (j.state ≡ JobState.monitor
        → step w id db ≡ (err (illegal_transition JobState.monitor JobState.choose id), db))
      × (j.state ≡ JobState.finalize
          → step w id db ≡ (err (illegal_transition JobState.finalize JobState.search id), db))
unfolding step run_step
lost_torrent_stuck w id db j c e known lost =
    let same = found-id id db.jobs {j = j} e in
    let here = subst (λ i. find_job i db.jobs ≡ some j) (sym same) e in
    (
      λ s.
          rw (e, step)
            (rw (s, run_step)
              (rw (monitor_refused w db j c here known lost s)
                (ap (λ i. refused JobState.monitor JobState.choose i db) same))),
      λ s.
          rw (e, step)
            (rw (s, run_step)
              (rw (finalize_refused w db j c here known lost s)
                (ap (λ i. refused JobState.finalize JobState.search i db) same))),
    )
