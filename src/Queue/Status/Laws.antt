-- ===== src/Queue/Status/Laws.antt =====
-- What a sweep of expired questions comes to (core/crates/genrl-core/src/queue/status.rs).
use genrl_downloader.Prelude.{
  ℕ, ◌+◌, ◌≤◌, Bool, true, false, ◌≡◌, ◌≢◌, refl, sym, subst, ◌∙◌, inl, inr, some, List, [], ◌∷◌,
  ◌==◌, length, All, Bool-cases, Option-cases, ==_iff, arith,
}
use genrl_downloader.Text.{Text, codes}
use genrl_downloader.Error.{Result, ok}
use genrl_downloader.Models.JobState.{JobState, state_eq}
use genrl_downloader.Questions.{Question}
use genrl_downloader.Questions.Store.{expire}
use genrl_downloader.Jobs.{Job, Db, find_job}
use genrl_downloader.Jobs.Diagram.{Move}
use genrl_downloader.Jobs.Move.{MoveOptions, default, transition, moved_row}
use genrl_downloader.Jobs.Move.Legal.{state_eq_iff, transition_ok_iff, transition_effect, ok_row}
use genrl_downloader.Worker.Episodes.{mark_missing}
use genrl_downloader.Worker.Inbox.Answered.{find-id}
use genrl_downloader.Queue.Status.{failed_out, release_job, release, count_in, release_each, sweep}

-- No job of that id waits on the Inbox.
abbrev pub IsQuiet : ℕ → Db → Type 0
IsQuiet id db = (j : Job) → find_job id db.jobs ≡ some j → j.state ≢ JobState.needs_input

-- It succeeds; the job of the question is quiet after it, and whatever was quiet stays so.
abbrev Releases : ℕ → Db → Result Bool × Db → Type 0
Releases id db (r, db') =
    ((b : Bool) × (r ≡ ok b)) × IsQuiet id db' × ((k : ℕ) → IsQuiet k db → IsQuiet k db')

failed_row :
    (row k : Job) → row.state ≡ JobState.failed → some row ≡ some k → k.state ≢ JobState.needs_input
failed_row row k e same bad = ground (arith, e, same, bad)

expire_job :
    (now : ℕ) (j : Job) (db : Db)
    → find_job j.id db.jobs ≡ some j
    → j.state ≡ JobState.needs_input
    → (why : Text) (o : MoveOptions)
    → Releases j.id db (failed_out j.episode_id (transition db now j.id JobState.failed why o))
unfolding failed_out mark_missing moved_row
expire_job now j db here asks why o =
    let r = transition db now j.id JobState.failed why o in
    let way = subst (λ s. Move s JobState.failed) (sym asks) Move.answer_fail in
    let fine =
      (transition_ok_iff db now j.id JobState.failed why o j.state).1
        (j, here, refl, (λ e. ground (arith, e, asks)), inr way) in
    let row = moved_row JobState.failed why o now j in
    let quiet : IsQuiet j.id r.1 = λ k e.
      failed_row row k refl
        (sym (ok_row db now j.id JobState.failed why o j.state j fine here) ∙ e) in
    subst (λ x. Releases j.id db (failed_out j.episode_id (x, r.1))) (sym fine)
      (
        (true, refl),
        quiet,
        λ k before. elim (Bool-cases (k == j.id)) [
          | inl same ↦ subst (λ i. IsQuiet i r.1) (sym ((==_iff k j.id).0 same)) quiet
          | inr apart ↦ λ i e. before i (
              sym (
                (transition_effect db now j.id JobState.failed why o j.state j k fine here
                  (ground (arith, apart))).1)
              ∙ e)
        ],
      )

settled-IsQuiet :
    (id : ℕ) (db : Db) (j : Job)
    → find_job id db.jobs ≡ some j
    → j.state ≢ JobState.needs_input
    → IsQuiet id db
settled-IsQuiet id db j here differs k e bad = ground (arith, here, e, bad, differs)

released_job :
    (now : ℕ) (j : Job) (db : Db)
    → find_job j.id db.jobs ≡ some j
    → Releases j.id db (release_job now j db)
unfolding release_job mark_missing
released_job now j db here = elim (Bool-cases (state_eq j.state JobState.needs_input)) [
  | inl asks ↦
      rw (asks, release_job)
        (expire_job now j db here ((state_eq_iff j.state JobState.needs_input).0 asks)
          (codes "question expired; the episode is missing again")
          (record default { reset_attempts = true }))
  | inr quiet ↦
      let differs : j.state ≢ JobState.needs_input =
        λ e. ground (arith, quiet, (state_eq_iff j.state JobState.needs_input).1 e) in
      elim (Bool-cases (state_eq j.state JobState.failed)) [
        | inl lost ↦
            rw (quiet, lost, release_job)
              ((true, refl), settled-IsQuiet j.id db j here differs, λ k before. before)
        | inr runs ↦
            rw (quiet, runs, release_job)
              ((false, refl), settled-IsQuiet j.id db j here differs, λ k before. before)
      ]
]

-- The job that the question is about is quiet.
abbrev pub Settled : Db → Question → Type 0
Settled db q = (id : ℕ) → q.job_id ≡ some id → IsQuiet id db

Released : Db → Question → Result Bool × Db → Type 0
Released db q (r, db') =
    ((b : Bool) × (r ≡ ok b)) × Settled db' q × ((k : ℕ) → IsQuiet k db → IsQuiet k db')

one_id : (a b c : ℕ) → a ≡ b → some b ≡ some c → a ≡ c
one_id a b c e f = ground (arith, e, f)

released : (now : ℕ) (q : Question) (db : Db) → Released db q (release now q db)
unfolding release Released
released now q db = elim (Option-cases q.job_id) [
  | inl free ↦
      rw (free, release) ((false, refl), (λ id e. ground (arith, e, free)), λ k before. before)
  | inr (id, of) ↦ elim (Option-cases (find_job id db.jobs)) [
    | inl gone ↦
        rw (of, gone, release)
          ((false, refl), (λ i e j here. ground (arith, e, gone, here)), λ k before. before)
    | inr (j, here) ↦
        let same = find-id id db.jobs {j = j} here in
        let (fine, quiet, keeps) =
          released_job now j db (subst (λ i. find_job i db.jobs ≡ some j) (sym same) here) in
        let db' = (release_job now j db).1 in
        rw (of, here, release)
          (fine, (λ i e. subst (λ k. IsQuiet k db') (one_id j.id id i same e) quiet), keeps)
  ]
]

-- All of them succeed, each question's job is quiet after it, and quiet jobs stay so.
Swept : Db → List Question → ℕ → Result ℕ × Db → Type 0
Swept db qs n (r, db') =
    ((m : ℕ) × (r ≡ ok m) × (m ≤ n + length qs))
    × All (Settled db') qs
    × ((k : ℕ) → IsQuiet k db → IsQuiet k db')

counted : (n : ℕ) (b : Bool) → count_in n b ≤ n + 1
unfolding count_in
counted n true = omega arith
counted n false = omega arith

swept_next :
    (now : ℕ) (q : Question) (qs : List Question) (n : ℕ) (db : Db) (b : Bool)
    → (release now q db).0 ≡ ok b
    → release_each now (q ∷ qs) n db ≡ release_each now qs (count_in n b) ((release now q db).1)
unfolding release_each
swept_next now q qs n db b fine = rw (fine, release_each) refl

swept : (now : ℕ) (qs : List Question) (n : ℕ) (db : Db) → Swept db qs n (release_each now qs n db)
unfolding release_each Swept Released
swept now [] n db = ((n, refl, omega arith), tt, λ k before. before)
swept now (q ∷ qs) n db =
    let ((b, fine), settled, keeps) = released now q db in
    let db' = (release now q db).1 in
    let ((m, e, small), all, keep) = swept now qs (count_in n b) db' in
    subst (Swept db (q ∷ qs) n) (sym (swept_next now q qs n db b fine)) (
      (m, e, omega (arith, small, counted n b)),
      ((λ id asked. keep id (settled id asked)), all),
      λ k before. keep k (keeps k before),
    )

-- A sweep never fails: it releases at most as many episodes as questions expired, the job of each
-- of these questions is then no longer in `needs_input`, and neither is any job that was not in it
-- before.
pub sweep_correct :
    (db : Db) (now : ℕ)
    → let past = (expire db now).0 in
      let (r, db') = sweep db now in
      ((m : ℕ) × (r ≡ ok m) × (m ≤ length past))
      × All (Settled db') past
      × ((k : ℕ) → IsQuiet k db → IsQuiet k db')
unfolding sweep expire Swept
sweep_correct db now =
    let ((m, e, small), all, keep) = swept now ((expire db now).0) 0 ((expire db now).1) in
    ((m, e, omega (arith, small)), all, keep)
