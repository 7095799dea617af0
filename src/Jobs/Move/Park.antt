-- ===== src/Jobs/Move/Park.antt =====
-- A job that is parked in `blocked` and resumed, the invariant of the rows, and sequences of moves
-- (core/crates/genrl-core/src/jobs/transitions.rs).
use genrl_downloader.Prelude.{
  ℕ, true, ◌≡◌, refl, sym, ◌∙◌, ◌≢◌, ◌⊎◌, inl, inr, Option, none, some, List, [], ◌∷◌, arith, All,
  subst, ap,
}
use genrl_downloader.Text.{Text}
use genrl_downloader.Error.{ok}
use genrl_downloader.Models.JobState.{
  JobState, search, choose, add, monitor, finalize, needs_input, blocked, failed, done, is_active,
}
use genrl_downloader.Jobs.{Job, Db, find_job}
use genrl_downloader.Jobs.Diagram.{
  Move, is_allowed, block, resume, search_step, choose_step, add_step, monitor_step, finalize_step,
}
use genrl_downloader.Jobs.Move.{
  MoveOptions, default, blocked_options, kind_of_state, moved_row, transition,
}
use genrl_downloader.Jobs.Move.Rows.{All-update}
use genrl_downloader.Jobs.Move.Legal.{
  transition_ok_iff, transition_cases, ok_row, Result-cases, transition_error_unchanged,
}

pub record IsTidy (j : Job) : Type 0 where
  -- the limiter is the one of the step that the job is about to run
  pub kind_follows : is_active j.state ≡ true → j.kind ≡ kind_of_state j.state
  -- a blocked job has a time at which it is looked at again
  pub blocked_waits : j.state ≡ blocked → j.next_run_at ≢ none
  -- only a blocked job has a state to return to
  pub return_only : j.blocked_from ≢ none → j.state ≡ blocked

-- The options name a state to return to only with a move to `blocked`.
abbrev pub Fits : MoveOptions → JobState → Type 0
Fits o to = o.blocked_from ≢ none → to ≡ blocked

moved_row-IsTidy :
    (to : JobState) (reason : Text) (o : MoveOptions) (at : ℕ) (j : Job)
    → Fits o to
    → IsTidy j
    → IsTidy (moved_row to reason o at j)
unfolding moved_row kind_of_state
moved_row-IsTidy search reason o at j fits t = ground arith
moved_row-IsTidy _ reason o at j fits t = ground arith

-- A move keeps every row tidy, whether it succeeds or fails.
pub transition-IsTidy :
    (db : Db) (at id : ℕ) (to : JobState) (reason : Text) (o : MoveOptions)
    → Fits o to
    → All IsTidy db.jobs
    → All IsTidy (transition db at id to reason o).1.jobs
transition-IsTidy db at id to reason o fits t = elim (transition_cases db at id to reason o) [
  | inl same ↦ subst (λ d. All IsTidy d.jobs) (sym same) t
  | inr (from, _, rows) ↦ subst (All IsTidy) (sym rows) (
      All-update IsTidy id (moved_row to reason o at) db.jobs
        (λ j _. moved_row-IsTidy to reason o at j fits) t)
]

step_not_done : (s : JobState) → is_active s ≡ true → (s ≢ done) × Move s blocked × Move blocked s
step_not_done search a = (λ e. cc, block search_step, resume search_step)
step_not_done JobState.choose a = (λ e. cc, block choose_step, resume choose_step)
step_not_done JobState.add a = (λ e. cc, block add_step, resume add_step)
step_not_done JobState.monitor a = (λ e. cc, block monitor_step, resume monitor_step)
step_not_done JobState.finalize a = (λ e. cc, block finalize_step, resume finalize_step)
step_not_done _ a = absurd (ground arith)

-- The row of a job that runs its step again: the limiter is the step's own.
abbrev pub resumed_row : ℕ → Job → Job
resumed_row later j = record j {
  kind = kind_of_state j.state;
  next_run_at = none;
  last_error = none;
  updated_at = later;
  blocked_from = none;
}

twice_moved :
    (j : Job) (at later : ℕ) (reason reason' : Text)
    → is_active j.state ≡ true
    → moved_row j.state reason' default later
        (moved_row blocked reason (blocked_options j.state) at j)
      ≡ resumed_row later j
unfolding moved_row kind_of_state
twice_moved j at later reason reason' a = ground arith

-- A job in a main step that is parked in `blocked`, remembering that step, and resumed to it
-- afterwards has its step, its attempts, its torrent and its progress as before. Its limiter is that
-- of the step, whatever it was before; the time of the next run, the error and the state to return
-- to are cleared.
pub park_resume :
    (db : Db) (at later id : ℕ) (reason reason' : Text) (j : Job)
    → find_job id db.jobs ≡ some j
    → is_active j.state ≡ true
    → let parked = transition db at id blocked reason (blocked_options j.state) in
      let resumed = transition parked.1 later id j.state reason' default in
      (parked.0 ≡ ok j.state)
      × (resumed.0 ≡ ok blocked)
      × (find_job id resumed.1.jobs ≡ some (resumed_row later j))
unfolding moved_row
park_resume db at later id reason reason' j e a =
    let o = blocked_options j.state in
    let (running, park, back) = step_not_done j.state a in
    let parked = transition db at id blocked reason o in
    let p : parked.0 ≡ ok j.state =
      (transition_ok_iff db at id blocked reason o j.state).1 (j, e, refl, running, inr park) in
    let row = moved_row blocked reason o at j in
    let found : find_job id parked.1.jobs ≡ some row =
      ok_row db at id blocked reason o j.state j p e in
    let r : (transition parked.1 later id j.state reason' default).0 ≡ ok blocked =
      (transition_ok_iff parked.1 later id j.state reason' default blocked).1
        (row, found, refl, λ x. cc, inr back) in
    (
      p,
      r,
      ok_row parked.1 later id j.state reason' default blocked row r found
          ∙ ap some (twice_moved j at later reason reason' a),
    )

-- A sequence of attempts to move one job, each at a time, to a state, for a reason.
pub attempts : ℕ → Db → List (ℕ × JobState × Text × MoveOptions) → Db
attempts id db [] = db
attempts id db ((at, to, reason, o) ∷ calls) = attempts id (transition db at id to reason o).1 calls

-- The job's row after each of the attempts.
pub rows_after : ℕ → Db → List (ℕ × JobState × Text × MoveOptions) → List (Option Job)
rows_after id db [] = []
rows_after id db ((at, to, reason, o) ∷ calls) =
    let next = (transition db at id to reason o).1 in
    find_job id next.jobs ∷ rows_after id next calls

-- The table lets a job in `s` go to `to`.
abbrev pub MayGo : JobState → JobState → Type 0
MayGo s to = (s ≢ done) × ((s ≡ to) ⊎ Move s to)

-- Every row is there, and is what the attempt makes of the one before it.
abbrev pub History : Job → List (ℕ × JobState × Text × MoveOptions) → List (Option Job) → Type 0
History j [] os = os ≡ []
History j (call ∷ calls) [] = ⊥
History j ((at, to, reason, o) ∷ calls) (r ∷ rs) =
    (k : Job) × (r ≡ some k)
    × ((MayGo j.state to × (k.state ≡ to)) ⊎ ((¬ MayGo j.state to) × (k ≡ j)))
    × History k calls rs

-- Whatever moves are tried on a job that is there, legal or not, it stays there. Each attempt takes
-- it to the state asked for, where it is not done and that state is its own or one that the diagram
-- allows next; any other attempt leaves its row as it was, so a job that is done stays as it is.
pub attempts-History :
    (id : ℕ) (db : Db) (calls : List (ℕ × JobState × Text × MoveOptions)) (j : Job)
    → find_job id db.jobs ≡ some j
    → History j calls (rows_after id db calls)
unfolding rows_after moved_row
attempts-History id db [] j e = refl
attempts-History id db ((at, to, reason, o) ∷ calls) j e =
    let next = (transition db at id to reason o).1 in
    elim (Result-cases (transition db at id to reason o).0) [
      | inl (x, fails) ↦
          let same = transition_error_unchanged db at id to reason o x fails in
          let there = subst (λ d. find_job id d.jobs ≡ some j) (sym same) e in
          (
            j,
            there,
            inr (
              λ (running, legal).
                  let ok_ =
                    (transition_ok_iff db at id to reason o j.state).1
                      (j, e, refl, running, legal) in
                  absurd (ground (arith, fails, ok_)),
              refl,
            ),
            attempts-History id next calls j there,
          )
      | inr (from, ok_) ↦
          let (k, found, at_from, running, legal) =
            (transition_ok_iff db at id to reason o from).0 ok_ in
          let left : j.state ≡ from = ground (arith, e, found, at_from) in
          let there = ok_row db at id to reason o from j ok_ e in
          (
            moved_row to reason o at j,
            there,
            inl (subst (λ s. MayGo s to) (sym left) (running, legal), refl),
            attempts-History id next calls (moved_row to reason o at j) there,
          )
    ]

-- Calls of `transition` to one state after the other.
abbrev pub calls_to : ℕ → Text → List JobState → List (ℕ × JobState × Text × MoveOptions)
calls_to at reason [] = []
calls_to at reason (s ∷ ss) = (at, s, reason, default) ∷ calls_to at reason ss

-- A way from a state to `done`.
abbrev way : JobState → List JobState
way search = choose ∷ add ∷ monitor ∷ finalize ∷ done ∷ []
way choose = add ∷ monitor ∷ finalize ∷ done ∷ []
way add = monitor ∷ finalize ∷ done ∷ []
way monitor = finalize ∷ done ∷ []
way finalize = done ∷ []
way needs_input = done ∷ []
way blocked = finalize ∷ done ∷ []
way failed = done ∷ []
way done = []

-- Each state is one that the table allows after the one before it, and the last is `done`.
abbrev IsWay : JobState → List JobState → Type 0
IsWay s [] = s ≡ done
IsWay s (t ∷ ts) = (s ≢ done) × (is_allowed s t ≡ true) × IsWay t ts
