-- ===== src/Worker/Laws/Consent.antt =====
-- What the step `add` asks before it hands a torrent to qBittorrent
-- (core/crates/genrl-core/src/worker/steps_acquire.rs, `add_step`).
use genrl_downloader.Prelude.{
  ℕ, ◌≤◌, Bool, true, false, not, ◌||◌, ◌≡◌, ◌≢◌, refl, sym, ap, ◌∙◌, subst, ◌⊎◌, inl, inr, Option,
  none, some, leb, if◌then◌else◌, arith, Bool-cases,
}
use genrl_downloader.Error.{Error, Result, ok, err, is_connection_failure}
use genrl_downloader.Text.{Text, codes}
use genrl_downloader.Models.JobState.{JobState}
use genrl_downloader.Questions.{Payload, match_review}
use genrl_downloader.Jobs.{Job, Db, find_job}
use genrl_downloader.Jobs.Move.{MoveOptions, default, moved_row}
use genrl_downloader.Jobs.Move.Legal.{transition_cases, moved_row-id}
use genrl_downloader.Jobs.Move.Rows.{find_update_self}
use genrl_downloader.Worker.Inbox.Laws.{Stands}
use genrl_downloader.Worker.Run.{Run, after, ◌>>=◌, ◌>>◌, return, lift, row, reads}
use genrl_downloader.Worker.World.{World, ChosenTorrent, JobContext}
use genrl_downloader.Worker.Inputs.{load_inputs, expected_show, candidate_rows}
use genrl_downloader.Worker.Helpers.{
  find_context, context, moves, block, ask, episode_mal_id, counting, gives_up, fail_or_reschedule,
  chosen_of, chosen_torrent, blocking_reason,
}
use genrl_downloader.Worker.Acquire.{is_outage}
use genrl_downloader.Worker.Add.{
  large_bytes, approved, large_options, too_large, ask_and_park, ask_consent,
  confirm_large_download, added, send, lacks_space, add_to, add_chosen, is_auth, unusable,
  add_running, add_step,
}
use genrl_downloader.Worker.Finish.{run_step, step, state_after}
use genrl_downloader.Worker.Laws.{Calm, then-Calm, branch-Calm}
use genrl_downloader.Worker.Laws.Parts.{
  return-Calm, lift-Calm, reads-Calm, ask-Calm, reschedules-Calm, episode_mal_id-Calm, notice-Calm,
}
use genrl_downloader.Worker.Laws.Step.{found-id}
use genrl_downloader.Worker.Laws.Moves.Adding.{no_consent}

module _ (w : World) (j : Job) where
  -- The job is there, and not in `monitor`.
  abbrev Away : Db → Type 0
  Away db = (t : JobState) × (t ≢ JobState.monitor) × Stands j.id t db

  -- The call leads a job in `add` to another state than `monitor`.
  record Off {A : Type 0} (m : Run A) : Type 0 where
    away : (db : Db) → Stands j.id JobState.add db → Away (m db).1

  stays : (db : Db) → Stands j.id JobState.add db → Away db
  stays db h = (JobState.add, λ e. absurd (ground arith), h)

  calm-Off : {A : Type 0} {m : Run A} → Calm j.id JobState.add m → Off m
  calm-Off {m = m} c = record { away = λ db h. stays (m db).1 (c.keeps db h) }

  after-Away :
      {A B : Type 0} (r : Result A) (db : Db) (f : A → Run B)
      → Stands j.id JobState.add db
      → ((a : A) → Off (f a))
      → Away (after (r, db) f).1
  after-Away (ok a) db f h k = (k a).away db h
  after-Away (err e) db f h k = stays db h

  then-Off :
      {A B : Type 0} (m : Run A) (f : A → Run B)
      → Calm j.id JobState.add m
      → ((a : A) → Off (f a))
      → Off (m >>= f)
  then-Off m f c k = record { away = λ db h. after-Away (m db).0 (m db).1 f (c.keeps db h) k }

  moves-Off :
      (to : JobState) (reason : Text) (o : MoveOptions)
      → to ≢ JobState.monitor
      → Off (moves w j to reason o)
  unfolding moves moved_row
  moves-Off to reason o n = record {
    away = λ db (r, found, at). elim (transition_cases db w.now j.id to reason o) [
      | inl same ↦ subst Away (sym same) (stays db (r, found, at))
      | inr (from, (k, k_found, at_from, running, legal), rows) ↦ (
        to,
        n,
        (
          moved_row to reason o w.now k,
          ap (find_job j.id) rows
              ∙ find_update_self j.id (moved_row to reason o w.now) db.jobs {j = k}
                  (moved_row-id to reason o w.now) k_found,
          refl,
        ),
      )
    ];
  }

  block-Off : (reason : Text) → Off (block w j reason)
  unfolding block
  block-Off reason = moves-Off JobState.blocked reason _ (λ e. absurd (ground arith))

  branch-Off : {A : Type 0} (b : Bool) {x y : Run A} → Off x → Off y → Off (if b then x else y)
  branch-Off true p q = p
  branch-Off false p q = q

  fail-Off : (reason : Text) → Off (fail_or_reschedule w j reason)
  unfolding fail_or_reschedule
  fail-Off reason =
      branch-Off (gives_up w j)
        (then-Off (episode_mal_id j) _ (episode_mal_id-Calm w j JobState.add) (λ mal_id.
          then-Off (ask w j mal_id _ reason) _ (ask-Calm w j JobState.add mal_id _ reason)
            (λ _. moves-Off JobState.failed reason counting (λ e. absurd (ground arith)))))
        (calm-Off (
          then-Calm j.id JobState.add _ _ (reschedules-Calm w j JobState.add _ reason)
            (λ _. return-Calm w j JobState.add j.state)))

  unusable-Off : (mal_id : ℕ) (e : Error) → Off (unusable w j mal_id e)
  unfolding unusable
  unusable-Off mal_id e = branch-Off (is_connection_failure e) (block-Off _) (
      then-Off _ _
        (branch-Calm j.id JobState.add (is_auth e) (notice-Calm w j JobState.add mal_id)
          (return-Calm w j JobState.add tt))
        (λ _. block-Off _))

  after_return :
      {A B : Type 0} (r : Result A) (db : Db) (b : B)
      → Away db
      → Away (after (r, db) (λ _. return b)).1
  after_return (ok a) db b h = h
  after_return (err e) db b h = h

  return-Off : {A B : Type 0} (m : Run A) (b : B) → Off m → Off (m >> return b)
  return-Off m b c = record { away = λ db h. after_return (m db).0 (m db).1 b (c.away db h) }

  park-Off : (mal_id : ℕ) (p : Payload) → Off (ask_and_park w j mal_id p)
  unfolding ask_and_park
  park-Off mal_id p =
      then-Off (ask w j mal_id p too_large)
        (λ _. moves w j JobState.needs_input too_large default >> return false)
        (ask-Calm w j JobState.add mal_id p too_large)
        (λ _.
          return-Off (moves w j JobState.needs_input too_large default) false
            (moves-Off JobState.needs_input too_large default (λ e. absurd (ground arith))))

  consent-Off : (mal_id : ℕ) (t : ChosenTorrent) → Off (ask_consent w j mal_id t)
  unfolding ask_consent
  consent-Off mal_id t =
      then-Off _ _ (reads-Calm w j JobState.add (load_inputs w.regex w.chars mal_id)) (λ inputs.
        then-Off _ _
          (reads-Calm w j JobState.add (λ db. ok (candidate_rows w.parse_release mal_id db)))
          (λ rows.
            park-Off mal_id
              (match_review (expected_show inputs) (large_options t.info_hash rows) too_large)))

  refused :
      (r : Result Bool) (db : Db) (rest : Run JobState)
      → r ≢ ok true
      → Away db
      → Away (after (r, db) (λ consent. if consent then rest else return JobState.needs_input)).1
  refused (ok true) db rest n h = absurd (n refl)
  refused (ok false) db rest n h = h
  refused (err e) db rest n h = h

  -- The torrent goes to qBittorrent into the folder of the settings.
  abbrev pub Sent : ChosenTorrent → Type 0
  Sent t =
      let path = w.resolve_folder w.config.download_folder in
      (w.exists path ≡ true)
      × (w.writable path ≡ true)
      × (lacks_space w path t.size_bytes ≡ false)
      × (w.add t.magnet ≡ ok tt)

  answered :
      (mal_id : ℕ) (t : ChosenTorrent) (r : Result (Unit {0}))
      → (r ≡ ok tt)
        ⊎ Off (elim r as (λ _. Run JobState) [
          | ok _ ↦ added w j mal_id t
          | err e ↦
              if is_outage e
              then block w j (codes "qBittorrent refused the add")
              else fail_or_reschedule w j (codes "add failed")
        ])
  answered mal_id t (ok _) = inl refl
  answered mal_id t (err e) = inr (branch-Off (is_outage e) (block-Off _) (fail-Off _))

  sent : (mal_id : ℕ) (t : ChosenTorrent) → (w.add t.magnet ≡ ok tt) ⊎ Off (send w j mal_id t)
  unfolding send
  sent mal_id t = elim (answered mal_id t (w.add t.magnet)) [
    | inl taken ↦ inl taken
    | inr off ↦ inr (then-Off (lift w.client) _ (lift-Calm w j JobState.add w.client) (λ _. off))
  ]

  guarded :
      {C : Type 0} (b : Bool) {x y : Run JobState}
      → Off x
      → C ⊎ Off y
      → ((b ≡ false) × C) ⊎ Off (if b then x else y)
  guarded true p q = inr p
  guarded false p (inl c) = inl (refl, c)
  guarded false p (inr q) = inr q

  sent_to :
      (mal_id : ℕ) (t : ChosenTorrent)
      → Sent t ⊎ Off (add_to w j mal_id t (w.resolve_folder w.config.download_folder))
  unfolding add_to
  sent_to mal_id t =
      let path = w.resolve_folder w.config.download_folder in
      elim (guarded (not (w.exists path)) (block-Off _) (
        guarded (not (w.writable path)) (block-Off _)
          (guarded (lacks_space w path t.size_bytes) (block-Off _) (sent mal_id t)))) [
            | inl (there, (open_, (room, taken))) ↦
                inl (ground (arith, there), ground (arith, open_), room, taken)
            | inr off ↦ inr off
          ]

  -- The torrent is small, or the user approved it.
  abbrev pub Consent : ChosenTorrent → Db → Type 0
  Consent t db = (t.size_bytes ≤ large_bytes) ⊎ (approved j.id t db.questions ≡ true)

  consented :
      {C : Type 0} (mal_id : ℕ) (t : ChosenTorrent) (rest : Run JobState) (db : Db)
      → C ⊎ Off rest
      → Stands j.id JobState.add db
      → (Consent t db × C)
        ⊎ Away
            ((confirm_large_download w j mal_id t >>= λ consent.
                if consent then rest else return JobState.needs_input)
              db).1
  unfolding confirm_large_download
  consented mal_id t rest db c h =
      elim (Bool-cases (leb t.size_bytes large_bytes || approved j.id t db.questions)) [
        | inl yes_ ↦ elim c [
          | inl done_ ↦ inl (allowed yes_, done_)
          | inr off ↦ inr (rw (yes_, confirm_large_download) (off.away db h))
        ]
        | inr asks ↦ inr (
            rw (asks, confirm_large_download)
              (refused (ask_consent w j mal_id t db).0 (ask_consent w j mal_id t db).1 rest
                (no_consent w j JobState.add mal_id t db) ((consent-Off mal_id t).away db h)))
      ]
    where
      allowed : (leb t.size_bytes large_bytes || approved j.id t db.questions) ≡ true → Consent t db
      allowed e = elim (Bool-cases (leb t.size_bytes large_bytes)) [
        | inl small ↦ inl (ground (arith, small))
        | inr large ↦ inr (ground (arith, e, large))
      ]

  chosen :
      (mal_id : ℕ) (o : Option ChosenTorrent) (db : Db)
      → Stands j.id JobState.add db
      → ((t : ChosenTorrent) × (o ≡ some t) × Consent t db × Sent t)
        ⊎ Away (add_chosen w j mal_id o db).1
  unfolding add_chosen
  chosen mal_id none db h =
      inr ((moves-Off JobState.choose _ default (λ e. absurd (ground arith))).away db h)
  chosen mal_id (some t) db h =
      elim (consented mal_id t (add_to w j mal_id t (w.resolve_folder w.config.download_folder)) db
        (sent_to mal_id t) h) [ inl (c, s) ↦ inl (t, refl, c, s) | inr a ↦ inr a ]

  -- The job's torrent may be sent, and was.
  abbrev pub Fits : Db → Type 0
  Fits db = (t : ChosenTorrent) × (chosen_of j.torrent_id db ≡ some t) × Consent t db × Sent t

  running :
      (mal_id : ℕ) (r : Result Text) (db : Db)
      → Stands j.id JobState.add db
      → Fits db
        ⊎ Away
            (elim r as (λ _. Run JobState) [
              | err e ↦ unusable w j mal_id e
              | ok version ↦ chosen_torrent j >>= add_chosen w j mal_id
            ]
              db).1
  unfolding chosen_torrent
  running mal_id (err e) db h = inr ((unusable-Off mal_id e).away db h)
  running mal_id (ok version) db h = chosen mal_id (chosen_of j.torrent_id db) db h

  reason_cases :
      (mal_id : ℕ) (r : Option Text) (db : Db)
      → Stands j.id JobState.add db
      → ((r ≡ none) × Fits db)
        ⊎ Away
            (elim r as (λ _. Run JobState) [
              | some reason ↦ block w j reason
              | none ↦ add_running w j mal_id
            ]
              db).1
  unfolding add_running
  reason_cases mal_id (some reason) db h = inr ((block-Off reason).away db h)
  reason_cases mal_id none db h = elim (running mal_id w.ensure_running db h) [
    | inl f ↦ inl (refl, f)
    | inr a ↦ inr a
  ]

  context_cases :
      (o : Option JobContext) (db : Db)
      → Stands j.id JobState.add db
      → ((blocking_reason w ≡ none) × Fits db)
        ⊎ Away
            (after
              (row o, db)
              (λ c. elim (blocking_reason w) as (λ _. Run JobState) [
                | some reason ↦ block w j reason
                | none ↦ add_running w j c.mal_id
              ])).1
  context_cases none db h = inr (stays db h)
  context_cases (some c) db h = reason_cases c.mal_id (blocking_reason w) db h

  pub add_step_cases :
      (db : Db)
      → Stands j.id JobState.add db
      → ((blocking_reason w ≡ none) × Fits db) ⊎ Away (add_step w j db).1
  unfolding add_step context
  add_step_cases db h = context_cases (find_context j.episode_id db) db h

pub told_db :
    {A B : Type 0} (r : Result A) (db : Db) (f : Db → B) → (after (r, db) (λ _. reads f)).1 ≡ db
told_db (ok a) db f = refl
told_db (err e) db f = refl

stepped_add :
    (w : World) (id : ℕ) (j : Job) (db : Db)
    → find_job id db.jobs ≡ some j
    → j.state ≡ JobState.add
    → (step w id db).1 ≡ (add_step w j db).1
unfolding step run_step
stepped_add w id j db found s =
    rw (found, step)
      (told_db (run_step w j db).0 (run_step w j db).1
          (λ d. (j.state, state_after j (find_job id d.jobs)))
        ∙ rw (s, run_step) refl)

-- A step takes a job from `add` to `monitor` only after qBittorrent took the magnet of the torrent
-- that the job had chosen, and only if the free space was not below the floor, the download folder
-- was there, writable and not known to be too small for the torrent and the floor, and the torrent
-- was not above 2 GB or the user had approved it for this job.
pub monitor_needs_consent :
    (w : World) (id : ℕ) (db : Db) (j : Job)
    → find_job id db.jobs ≡ some j
    → j.state ≡ JobState.add
    → Stands id JobState.monitor (step w id db).1
    → (blocking_reason w ≡ none) × Fits w j db
monitor_needs_consent w id db j e s (k, found, at) =
    let same = found-id id db.jobs {j = j} e in
    let here = subst (λ i. find_job i db.jobs ≡ some j) (sym same) e in
    let after_step = ap (λ d. find_job id d.jobs) (sym (stepped_add w id j db e s)) ∙ found in
    elim (add_step_cases w j db (j, here, s)) [
      | inl f ↦ f
      | inr (t, n, (r, r_found, r_at)) ↦
          let r_at_id = subst (λ i. find_job i (add_step w j db).1.jobs ≡ some r) same r_found in
          absurd (ground (arith, n, r_at, at, r_at_id, after_step))
    ]
