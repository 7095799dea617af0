-- ===== src/Jobs/Move/Legal.antt =====
-- When `transition` succeeds, and what it leaves.
use genrl_downloader.Prelude.{
  ℕ, true, ◌≡◌, refl, ◌≢◌, ◌⊎◌, inl, inr, ◌↔◌, Option, none, some, arith, Bool-cases, length, ap,
  ◌∙◌, ◌+◌,
}
use genrl_downloader.Text.{Text}
use genrl_downloader.Error.{Error, Result, ok, err}
use genrl_downloader.Models.JobState.{JobState, done, state_eq}
use genrl_downloader.Jobs.{Job, Db, find_job, update_job}
use genrl_downloader.Jobs.Diagram.{Move}
use genrl_downloader.Jobs.Diagram.Laws.{is_allowed_iff}
use genrl_downloader.Jobs.Move.{MoveOptions, moved_row, transition, reschedule, reschedule_found}
use genrl_downloader.Jobs.Move.Rows.{find_update_self, find_update_other}

pub moved_row-id :
    (to : JobState) (reason : Text) (o : MoveOptions) (at : ℕ) (j : Job)
    → (moved_row to reason o at j).id ≡ j.id
unfolding moved_row
moved_row-id to reason o at j = refl

pub state_eq_iff : (s t : JobState) → (state_eq s t ≡ true) ↔ (s ≡ t)
state_eq_iff JobState.search t = ground arith
state_eq_iff _ t = ground arith

-- A call that fails leaves the database as it was.
pub transition_error_unchanged :
    (db : Db) (at id : ℕ) (to : JobState) (reason : Text) (o : MoveOptions) (e : Error)
    → (transition db at id to reason o).0 ≡ err e
    → (transition db at id to reason o).1 ≡ db
unfolding transition
transition_error_unchanged db at id to reason o e h = ground arith

-- The job is there, is not done, and the move is no move or one of the diagram.
abbrev pub CanMove : Db → ℕ → JobState → JobState → Type 0
CanMove db id from to =
    (j : Job) × (find_job id db.jobs ≡ some j)
    × (j.state ≡ from)
    × (from ≢ done)
    × ((from ≡ to) ⊎ Move from to)

ok_of_CanMove :
    (db : Db) (at id : ℕ) (to : JobState) (reason : Text) (o : MoveOptions) (from : JobState)
    → CanMove db id from to
    → (transition db at id to reason o).0 ≡ ok from
unfolding transition
ok_of_CanMove db at id to reason o from (j, found, at_from, running, inl same) =
    ground (arith, found, at_from, running, state_eq_iff j.state to)
ok_of_CanMove db at id to reason o from (j, found, at_from, running, inr move) =
    ground (arith, found, at_from, running, (is_allowed_iff from to).1 move)

ok_sound :
    (db : Db) (at id : ℕ) (to : JobState) (reason : Text) (o : MoveOptions) (from : JobState)
    (found : Option Job)
    → find_job id db.jobs ≡ found
    → (transition db at id to reason o).0 ≡ ok from
    → CanMove db id from to
unfolding transition
ok_sound db at id to reason o from none e h = absurd (ground arith)
ok_sound db at id to reason o from (some j) e h = (
  j,
  e,
  ground arith,
  ground arith,
  elim (Bool-cases (state_eq j.state to)) [
    | inl same ↦ inl (ground (arith, (state_eq_iff j.state to).0 same))
    | inr other_state ↦ inr ((is_allowed_iff from to).0 (ground arith))
  ],
)

-- `transition` succeeds exactly for a job that is there, is not done, and stays in its state or
-- makes a move of the diagram; it then returns the state that the job left.
pub transition_ok_iff :
    (db : Db) (at id : ℕ) (to : JobState) (reason : Text) (o : MoveOptions) (from : JobState)
    → ((transition db at id to reason o).0 ≡ ok from) ↔ CanMove db id from to
transition_ok_iff db at id to reason o from = (
  ok_sound db at id to reason o from (find_job id db.jobs) refl,
  ok_of_CanMove db at id to reason o from,
)

-- What a successful call leaves: the job's row is the moved row, every other row is as it was, and
-- one line is added to the Activity log.
pub transition_effect :
    (db : Db) (at id : ℕ) (to : JobState) (reason : Text) (o : MoveOptions) (from : JobState)
    (j : Job) (i : ℕ)
    → (transition db at id to reason o).0 ≡ ok from
    → find_job id db.jobs ≡ some j
    → i ≢ id
    → let db' = (transition db at id to reason o).1 in
      (find_job id db'.jobs ≡ some (moved_row to reason o at j))
      × (find_job i db'.jobs ≡ find_job i db.jobs)
      × (length db'.events ≡ length db.events + 1)
      × (db'.torrents ≡ db.torrents)
      × (db'.episodes ≡ db.episodes)
unfolding transition
transition_effect db at id to reason o from j i h e other_id =
    let f = moved_row to reason o at in
    let self = find_update_self id f db.jobs {j = j} (moved_row-id to reason o at) e in
    let others = find_update_other id i f db.jobs (moved_row-id to reason o at) other_id in
    (ground (arith, self), ground (arith, others), ground arith, ground arith, ground arith)

pub Result-cases :
    {A : Type 0} (r : Result A) → ((e : Error) × (r ≡ err e)) ⊎ ((a : A) × (r ≡ ok a))
Result-cases (ok a) = inr (a, refl)
Result-cases (err e) = inl (e, refl)

ok_jobs :
    (db : Db) (at id : ℕ) (to : JobState) (reason : Text) (o : MoveOptions) (from : JobState)
    → (transition db at id to reason o).0 ≡ ok from
    → (transition db at id to reason o).1.jobs ≡ update_job id (moved_row to reason o at) db.jobs
unfolding transition
ok_jobs db at id to reason o from h = ground arith

-- Either nothing changed, or the move was legal and the rows are those of the UPDATE.
pub transition_cases :
    (db : Db) (at id : ℕ) (to : JobState) (reason : Text) (o : MoveOptions)
    → ((transition db at id to reason o).1 ≡ db)
      ⊎ ((from : JobState) × CanMove db id from to
          × ((transition db at id to reason o).1.jobs
              ≡ update_job id (moved_row to reason o at) db.jobs))
transition_cases db at id to reason o = elim (Result-cases (transition db at id to reason o).0) [
  | inl (e, h) ↦ inl (transition_error_unchanged db at id to reason o e h)
  | inr (from, h) ↦ inr (
    from,
    ok_sound db at id to reason o from (find_job id db.jobs) refl h,
    ok_jobs db at id to reason o from h,
  )
]

pub ok_row :
    (db : Db) (at id : ℕ) (to : JobState) (reason : Text) (o : MoveOptions) (from : JobState)
    (j : Job)
    → (transition db at id to reason o).0 ≡ ok from
    → find_job id db.jobs ≡ some j
    → find_job id (transition db at id to reason o).1.jobs ≡ some (moved_row to reason o at j)
ok_row db at id to reason o from j h e =
    ap (find_job id) (ok_jobs db at id to reason o from h)
    ∙ find_update_self id (moved_row to reason o at) db.jobs {j = j} (moved_row-id to reason o at) e

-- A rescheduled job keeps all but its time, its last error and the time of the change.
pub rescheduled :
    (db : Db) (now id at : ℕ) (reason : Text) (j : Job)
    → find_job id db.jobs ≡ some j
    → ((reschedule db now id at reason).0 ≡ ok tt)
      × (find_job id (reschedule db now id at reason).1.jobs
          ≡ some (record j { next_run_at = some at; last_error = some reason; updated_at = now }))
unfolding reschedule reschedule_found
rescheduled db now id at reason j e =
    rw (e, reschedule, reschedule_found)
      (
        refl,
        find_update_self id
            (λ r. record r { next_run_at = some at; last_error = some reason; updated_at = now })
            db.jobs {j = j} (λ r. refl) e,
      )

pub reschedule-questions :
    (db : Db) (now id at : ℕ) (reason : Text)
    → (reschedule db now id at reason).1.questions ≡ db.questions
unfolding reschedule reschedule_found
reschedule-questions db now id at reason = ground arith
