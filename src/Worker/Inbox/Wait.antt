-- ===== src/Worker/Inbox/Wait.antt =====
-- The answer "check again in 24 hours" (core/crates/genrl-core/src/worker/inbox.rs).
use genrl_downloader.Prelude.{
  ℕ, ◌+◌, ◌*◌, Bool, true, false, not, ◌&&◌, ◌≡◌, ◌≢◌, refl, sym, subst, inr, Option, some, [],
  ◌++◌, arith,
}
use genrl_downloader.Text.{Text, codes}
use genrl_downloader.Error.{Result, ok}
use genrl_downloader.Models.JobState.{JobState, state_eq}
use genrl_downloader.Questions.{wait, Answer, Question}
use genrl_downloader.Jobs.{Job, Db, find_job}
use genrl_downloader.Jobs.Due.{is_due}
use genrl_downloader.Jobs.Diagram.{is_allowed, Move}
use genrl_downloader.Jobs.Diagram.Laws.{is_allowed_iff}
use genrl_downloader.Jobs.Move.{transition, reschedule, moved_row}
use genrl_downloader.Jobs.Move.Legal.{transition_ok_iff, ok_row, rescheduled}
use genrl_downloader.Worker.Inbox.{Outside, answer_label}
use genrl_downloader.Worker.Inbox.Act.{
  go, with_next, act, options, follow, moved, saved_alias, waits, answer_job, apply_answer,
}
use genrl_downloader.Worker.Inbox.Laws.{Stands}
use genrl_downloader.Worker.Inbox.Answered.{alias_saved, find-id, waits_search}

-- It has returned `search`, and the job may run at once.
abbrev pub DueAt : ℕ → ℕ → Result (Option JobState) × Db → Type 0
DueAt now id (r, db) =
    (r ≡ ok (some JobState.search))
    × ((j : Job) × (find_job id db.jobs ≡ some j) × (is_due now [] j ≡ true))

searched_is_due :
    (now at : ℕ) (why : Text) (j : Job)
    → is_due now [] (moved_row JobState.search why (options wait JobState.search) at j) ≡ true
unfolding is_due moved_row options
searched_is_due now at why j = refl

-- The move that follows, from the state `from` to `search`.
searched :
    (now id : ℕ) (from : JobState) (db : Db) (why : Text)
    → Stands id from db
    → from ≢ JobState.done
    → Move from JobState.search
    → DueAt now id (
        moved JobState.search
          (transition db now id JobState.search why (options wait JobState.search)))
unfolding moved
searched now id from db why (j, e, f) live way =
    let o = options wait JobState.search in
    let r = transition db now id JobState.search why o in
    let fine =
      (transition_ok_iff db now id JobState.search why o from).1 (j, e, f, live, inr way) in
    subst (λ x. DueAt now id (moved JobState.search (x, r.1))) (sym fine)
      (
        refl,
        (
          moved_row JobState.search why o now j,
          ok_row db now id JobState.search why o from j fine e,
          searched_is_due now now why j,
        ),
      )

after_wait :
    (outside : Outside) (now : ℕ) (j : Job) (mal_id : Option ℕ) (always : Bool) (db : Db)
    → waits j.state ≡ true
    → Stands j.id j.state db
    → DueAt now j.id (follow now j wait (act outside now j mal_id always wait db))
unfolding act follow
after_wait outside now j mal_id always db w (k, e, f) =
    let why = codes "waiting 24 h for seeds" in
    let at = now + 24 * 3600 in
    let (fine, found) = rescheduled db now j.id at why k e in
    let r = reschedule db now j.id at why in
    let (live, way) = waits_search j.state w in
    let allowed = (is_allowed_iff j.state JobState.search).1 way in
    let free : (not (state_eq JobState.search j.state) && not (is_allowed j.state JobState.search))
        ≡ false =
      ground (arith, allowed) in
    subst (λ x. DueAt now j.id (follow now j wait (with_next (go JobState.search) (x, r.1))))
      (sym fine)
      (rw (free, follow)
        (searched now j.id j.state r.1 (codes "answered: " ++ answer_label wait)
          (record k { next_run_at = some at; last_error = some why; updated_at = now }, found, f)
          live way))

-- "Check again in 24 hours" does not wait: where the question's job waits on the Inbox, the answer is
-- applied, and the job is in `search` and due at the time of the answer.
pub wait_runs_at_once :
    (outside : Outside) (db : Db) (now : ℕ) (q : Question) (always : Bool) (id : ℕ) (j : Job)
    → q.job_id ≡ some id
    → find_job id db.jobs ≡ some j
    → waits j.state ≡ true
    → DueAt now id (apply_answer outside db now q (record { choice = wait; always = always }))
unfolding apply_answer answer_job
wait_runs_at_once outside db now q always id j asked here w =
    let a : Answer = record { choice = wait; always = always } in
    let same = find-id id db.jobs {j = j} here in
    let here' = subst (λ i. find_job i db.jobs ≡ some j) (sym same) here in
    let (stands, _) = alias_saved outside q.mal_id a db j.id j.state (j, here', refl) in
    rw (asked, here, w, apply_answer, answer_job)
      (subst
        (λ i. DueAt now i (
          follow now j wait
            (act outside now j q.mal_id always wait (saved_alias outside q.mal_id a db))))
        same
        (after_wait outside now j q.mal_id always (saved_alias outside q.mal_id a db) w stands))
