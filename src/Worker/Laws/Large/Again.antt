-- ===== src/Worker/Laws/Large/Again.antt =====
-- A download above 2 GB, step after step (core/crates/genrl-core/src/worker/helpers.rs,
-- `confirm_large_download`).
use genrl_downloader.Prelude.{
  ℕ, ◌<◌, false, ◌≡◌, refl, sym, ap, ◌∙◌, subst, Option, none, some, List, [], ◌∷◌, ◌++◌, All,
  All-map, arith, length,
}
use mathlib.Core.List.{append-nil, append_assoc}
use genrl_downloader.Text.{codes}
use genrl_downloader.Error.{Error, Result, err, other}
use genrl_downloader.Models.JobState.{JobState}
use genrl_downloader.Questions.{Question}
use genrl_downloader.Jobs.{Job, Event, Db, find_job}
use genrl_downloader.Worker.Run.{Run, after, lift, reads}
use genrl_downloader.Worker.World.{World, ChosenTorrent}
use genrl_downloader.Worker.Inputs.{load_inputs}
use genrl_downloader.Worker.Helpers.{find_context, chosen_of}
use genrl_downloader.Worker.Add.{approves, approved, large_bytes, add_step, chooses}
use genrl_downloader.Worker.Finish.{run_step, state_after, step, monitor_step, finalize_step}
use genrl_downloader.Worker.Acquire.{search_step, choose_step}
use genrl_downloader.Worker.Laws.Step.{found-id}
use genrl_downloader.Worker.Laws.Large.{Ready, asked, added_question, left, refused_add}

-- The steps of a job, each in its own world; what they return is left out.
unfoldable pub steps : List World → ℕ → Db → Db
steps [] id db = db
steps (w ∷ ws) id db = steps ws id (step w id db).1

-- Questions were only added, one for each of `n` steps, none of them answered; and log lines.
abbrev pub Asked : ℕ → Db → Db → Type 0
Asked n db db' =
    (new : List Question) × (next : ℕ) × (events : List Event) × (db'
      ≡ asked db (db.questions ++ new) next events)
    × (length new ≡ n)
    × All (λ q. q.answer ≡ none) new

abbrev pub named : World → Job → JobState → Run JobState
named w j s = elim s [
  | JobState.search ↦ search_step w j
  | JobState.choose ↦ choose_step w j
  | JobState.add ↦ add_step w j
  | JobState.monitor ↦ monitor_step w j
  | JobState.finalize ↦ finalize_step w j
  | _ ↦ lift (err (other (codes "only the five main steps run work")))
]

stepped :
    (w : World) (id : ℕ) (j : Job) (db : Db) {e : Error} {db' : Db}
    → find_job id db.jobs ≡ some j
    → j.state ≡ JobState.add
    → add_step w j db ≡ (err e, db')
    → step w id db ≡ (err e, db')
unfolding step run_step
stepped w id j db {e} {db'} found s h =
    let tell = λ (k : Job) (_ : JobState).
      reads {A = JobState × JobState} (λ d. (k.state, state_after k (find_job id d.jobs))) in
    ap
      (λ o. elim o as (λ _. Result (JobState × JobState) × Db) [
        | none ↦ (err (other (codes "no job with that id")), db)
        | some k ↦ after (run_step w k db) (tell k)
      ])
      found
    ∙ ap (λ r. after r (tell j)) (ap (λ x. named w j x db) s ∙ h)

same_chosen :
    (db : Db) (qs : List Question) (n : ℕ) (events : List Event) (o : Option ℕ)
    → chosen_of o (asked db qs n events) ≡ chosen_of o db
unfolding chosen_of
same_chosen db qs n events none = refl
same_chosen db qs n events (some id) = refl

asked-Ready :
    (w : World) (j : Job) (t : ChosenTorrent) (db : Db) (qs : List Question) (n : ℕ)
    (events : List Event)
    → Ready w j t db
    → Ready w j t (asked db qs n events)
unfolding find_context chosen_of load_inputs
asked-Ready w j t db qs n events r = record {
  context_of = r.context_of;
  inputs = r.inputs;
  version = r.version;
  known = r.known;
  room = r.room;
  running = r.running;
  chosen = same_chosen db qs n events j.torrent_id ∙ r.chosen;
  loaded = r.loaded;
}

still_quiet :
    (id : ℕ) (t : ChosenTorrent) (qs : List Question) (q : Question)
    → approved id t qs ≡ false
    → q.answer ≡ none
    → approved id t (qs ++ q ∷ []) ≡ false
unfolding approved approves chooses
still_quiet id t [] q h a = ground (arith, a)
still_quiet id t (x ∷ qs) q h a = ground (arith, still_quiet id t qs q)

-- A torrent above 2 GB is asked about at every step, and never parked: as long as the services are
-- well and the user has not approved it, each step of the job, in `add`, adds one more question to
-- the Inbox and changes nothing else but the log, the job included, since the move to `needs_input`
-- that should follow is not on the diagram.
pub large_download_asks_again :
    (ws : List World) (id : ℕ) (j : Job) (t : ChosenTorrent) (db : Db)
    → find_job id db.jobs ≡ some j
    → j.state ≡ JobState.add
    → large_bytes < t.size_bytes
    → approved j.id t db.questions ≡ false
    → All (λ w. Ready w j t db) ws
    → Asked (length ws) db (steps ws id db)
unfolding steps left added_question
large_download_asks_again [] id j t db e s large quiet r = (
  [],
  db.next_question,
  db.events,
  ap (λ qs. asked db qs db.next_question db.events) (sym (append-nil db.questions)),
  refl,
  tt,
)
large_download_asks_again (w ∷ ws) id j t db e s large quiet r =
    let here = subst (λ i. find_job i db.jobs ≡ some j) (sym (found-id id db.jobs {j = j} e)) e in
    let q = added_question w j t db r.0 in
    let next = left w j t db r.0 in
    let moved : (step w id db).1 ≡ next =
      ap (λ x. x.1) (stepped w id j db e s (refused_add w j t db r.0 here s large quiet)) in
    let (new, n, events, same, len, fresh) =
      large_download_asks_again ws id j t next e s large
        (still_quiet j.id t db.questions q quiet refl)
        (All-map (λ v k. asked-Ready v j t db next.questions next.next_question next.events k) ws
          r.1) in
    (
      q ∷ new,
      n,
      events,
      ap (λ d. steps ws id d) moved
          ∙ same
          ∙ ap (λ qs. asked db qs n events) (append_assoc db.questions (q ∷ []) new),
      omega (arith, len),
      (refl, fresh),
    )
