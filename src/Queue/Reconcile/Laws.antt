-- ===== src/Queue/Reconcile/Laws.antt =====
-- Which jobs crash recovery cannot resume.
use genrl_downloader.Prelude.{
  ℕ, ◌≡◌, ◌≢◌, refl, ◌↔◌, ◌⊎◌, inl, inr, Option, none, some, List, ◌∷◌, arith,
}
use genrl_downloader.Error.{Error, Result, illegal_transition, ok, err}
use genrl_downloader.Models.JobState.{JobState}
use genrl_downloader.Jobs.{Job, Db, find_job}
use genrl_downloader.Jobs.Diagram.{is_allowed}
use genrl_downloader.Jobs.Move.{transition}
use genrl_downloader.Worker.World.{World}
use genrl_downloader.Worker.Finish.{step}
use genrl_downloader.Queue.Reconcile.{
  after, redo, TorrentInfo, complete, gone, Outcome, Meets, rerun, reconcile_job, reconcile_each,
  plan_for,
}

-- A job being added whose download is complete, or one being monitored without a torrent.
abbrev pub IsStuck : Job → Result TorrentInfo → Type 0
IsStuck j answer =
    ((j.state ≡ JobState.add) × (j.torrent_id ≢ none) × (answer ≡ ok complete))
    ⊎ ((j.state ≡ JobState.monitor) × (j.torrent_id ≡ none))

-- qBittorrent was asked about the job's torrent, and gave no answer.
abbrev pub IsUnanswered : Job → Result TorrentInfo → Type 0
IsUnanswered j answer =
    ((j.state ≡ JobState.add) ⊎ (j.state ≡ JobState.monitor))
    × (j.torrent_id ≢ none)
    × ((e : Error) × (answer ≡ err e))

-- The job's step runs again.
abbrev pub RunsAgain : Job → Result TorrentInfo → Type 0
RunsAgain j answer =
    (j.state ≡ JobState.finalize)
    ⊎ ((j.state ≡ JobState.add) × (j.torrent_id ≢ none) × (answer ≡ ok gone))

rerun-fails :
    (r : Result (JobState × JobState) × Db) (e : Error) → ((rerun r).0 ≡ err e) ↔ (r.0 ≡ err e)
unfolding rerun
rerun-fails r e = ground arith

-- The recovery of the job fails.
abbrev pub IsUnrecoverable : World → Db → Job → Result TorrentInfo → Type 0
IsUnrecoverable w db j answer =
    IsStuck j answer
    ⊎ (IsUnanswered j answer ⊎ (RunsAgain j answer × ((e : Error) × ((step w j.id db).0 ≡ err e))))

fails_if :
    (w : World) (db : Db) (j : Job) (answer : Result TorrentInfo)
    → find_job j.id db.jobs ≡ some j
    → IsUnrecoverable w db j answer
    → (e : Error) × ((reconcile_job w db j answer).0 ≡ err e)
unfolding reconcile_job plan_for is_allowed transition
fails_if w db j answer there (inl (inl (s, t, a))) =
    (illegal_transition j.state JobState.finalize j.id, ground arith)
fails_if w db j answer there (inl (inr (s, t))) =
    (illegal_transition j.state JobState.choose j.id, ground arith)
fails_if w db j answer there (inr (inl (s, t, (e, a)))) = (e, ground arith)
fails_if w db j answer there (inr (inr (s, (e, h)))) =
    (e, ground (arith, s, (rerun-fails (step w j.id db) e).1 h))

module _ (w : World) (db : Db) (j : Job) (answer : Result TorrentInfo) (e : Error)
    (there : find_job j.id db.jobs ≡ some j) (h : (reconcile_job w db j answer).0 ≡ err e) where
  again : plan_for j.state j.torrent_id answer ≡ ok redo → (step w j.id db).0 ≡ err e
  unfolding reconcile_job
  again p = (rerun-fails (step w j.id db) e).0 (ground (arith, h, p))

  fails_only_if :
      (s : JobState) (torrent : Option ℕ) (a : Result TorrentInfo)
      → j.state ≡ s
      → j.torrent_id ≡ torrent
      → answer ≡ a
      → s ≢ JobState.done
      → IsUnrecoverable w db j answer
  unfolding reconcile_job plan_for is_allowed transition
  fails_only_if JobState.finalize torrent a s t q n =
      inr (inr (inl s, (e, again (ground (arith, s)))))
  fails_only_if JobState.add (some x) (ok gone) s t q n =
      inr (inr (inr (s, ground (arith, t), q), (e, again (ground (arith, s, t, q)))))
  fails_only_if JobState.add (some x) (ok complete) s t q n = inl (inl (s, ground (arith, t), q))
  fails_only_if JobState.add (some x) (err y) s t q n = inr (inl (inl s, ground (arith, t), (y, q)))
  fails_only_if JobState.monitor none a s t q n = inl (inr (s, t))
  fails_only_if JobState.monitor (some x) (err y) s t q n =
      inr (inl (inr s, ground (arith, t), (y, q)))
  fails_only_if _ _ _ s t q n = absurd (ground (arith, h, there, s, t, q, n))

stopped :
    (e : Error) (one : Result Outcome × Db) (rest : Db → Result (List Outcome) × Db)
    → one.0 ≡ err e
    → after one rest ≡ (err e, one.1)
stopped e (err x, db) rest h = ground (arith, h)
stopped e (ok x, db) rest h = absurd (ground (arith, h))

-- The recovery of a job that is there and is not done fails exactly when the job is being added and
-- its download is complete, or is being monitored without a torrent; when qBittorrent was asked about
-- it and gave no answer; or when its step runs again (it is being finalized, or being added and its
-- torrent is gone) and that step fails. Such a failure ends the whole loop, and what the loop leaves
-- is what this job left: no job after it is looked at.
pub reconcile_fails_iff :
    (meets : Meets) (db : Db) (j : Job) (js : List Job)
    → find_job j.id db.jobs ≡ some j
    → j.state ≢ JobState.done
    → let (w, answer) = meets j in
      let one = reconcile_job w db j answer in
      (((e : Error) × (one.0 ≡ err e)) ↔ IsUnrecoverable w db j answer)
      × ((e : Error) → one.0 ≡ err e → reconcile_each meets db (j ∷ js) ≡ (err e, one.1))
unfolding reconcile_each
reconcile_fails_iff meets db j js there unfinished =
    let (w, answer) = meets j in
    (
      (
        λ h.
            fails_only_if w db j answer h.0 there h.1 j.state j.torrent_id answer refl refl refl
              unfinished,
        fails_if w db j answer there,
      ),
      λ e h. stopped e (reconcile_job w db j answer) (λ db'. reconcile_each meets db' js) h,
    )
