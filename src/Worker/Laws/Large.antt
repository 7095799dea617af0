-- ===== src/Worker/Laws/Large.antt =====
-- A download above 2 GB (core/crates/genrl-core/src/worker/helpers.rs, `confirm_large_download`):
-- what one step does with it.
pub mod Again
use genrl_downloader.Prelude.{
  ℕ, ◌+◌, ◌*◌, ◌<◌, ◌≤◌, Bool, true, false, ◌||◌, ◌≡◌, refl, sym, ap, ◌∙◌, subst, Option, none,
  some, List, [], ◌∷◌, ◌++◌, All, All-map, arith, leb, length, if◌then◌else◌,
}
use mathlib.Core.List.{append-nil, append_assoc}
use genrl_downloader.Text.{Text, codes}
use genrl_downloader.Error.{Error, Result, ok, err, illegal_transition, other}
use genrl_downloader.Models.JobState.{JobState}
use genrl_downloader.Questions.{Payload, match_review, Question, kind}
use genrl_downloader.Questions.Store
use genrl_downloader.Questions.Store.{expiry}
use genrl_downloader.Jobs.{Job, Event, line, Db, find_job}
use genrl_downloader.Jobs.Diagram.{is_allowed}
use genrl_downloader.Jobs.Move.{default, transition}
use genrl_downloader.Worker.Run.{Run, after, ◌>>=◌, ◌>>◌, return, row, lift, reads}
use genrl_downloader.Worker.World.{World, JobContext, ChosenTorrent}
use genrl_downloader.Worker.Inputs.{TargetInputs, load_inputs, expected_show, candidate_rows}
use genrl_downloader.Worker.Helpers.{
  find_context, context, chosen_of, chosen_torrent, moves, ask, store_question, logs,
  blocking_reason, block,
}
use genrl_downloader.Worker.Add.{
  approves, approved, too_large, large_bytes, large_options, ask_and_park, ask_consent,
  confirm_large_download, add_to, unusable, add_chosen, add_running, add_step, chooses,
}
use genrl_downloader.Worker.Finish.{run_step, state_after, step, monitor_step, finalize_step}
use genrl_downloader.Worker.Acquire.{search_step, choose_step}
use genrl_downloader.Worker.Laws.Step.{found-id}

-- The services are well, and the job's torrent is known.
pub record Ready (w : World) (j : Job) (t : ChosenTorrent) (db : Db) : Type 0 where
  pub context_of : JobContext
  pub inputs : TargetInputs
  pub version : Text
  pub known : find_context j.episode_id db ≡ some context_of
  pub room : blocking_reason w ≡ none
  pub running : w.ensure_running ≡ ok version
  pub chosen : chosen_of j.torrent_id db ≡ some t
  pub loaded : load_inputs w.regex w.chars context_of.mal_id db ≡ ok inputs

-- The database with other questions and log lines.
abbrev pub asked : Db → List Question → ℕ → List Event → Db
asked db qs n events = record db { questions = qs; next_question = n; events = events }

no_add_ask :
    (db : Db) (at : ℕ) (j : Job) (reason : Text)
    → find_job j.id db.jobs ≡ some j
    → j.state ≡ JobState.add
    → transition db at j.id JobState.needs_input reason default
      ≡ (err (illegal_transition JobState.add JobState.needs_input j.id), db)
unfolding transition is_allowed
no_add_ask db at j reason e s = rw (e, transition) (rw s refl)

abbrev question : World → Job → ℕ → Payload → ℕ → Question
question w j mal_id payload n = record {
  id = n;
  job_id = some j.id;
  mal_id = some mal_id;
  kind = kind payload;
  payload = payload;
  answer = none;
  created_at = w.now;
  expires_at = some (w.now + w.config.question_expiry_hours * 3600);
}

abbrev noticed : World → Job → ℕ → Event
noticed w j mal_id = record {
  at = w.now;
  job_id = some j.id;
  mal_id = some mal_id;
  message = line too_large;
}

parked :
    (w : World) (j : Job) (mal_id : ℕ) (p : Payload) (db : Db)
    → find_job j.id db.jobs ≡ some j
    → j.state ≡ JobState.add
    → ask_and_park w j mal_id p db ≡ (
      err (illegal_transition JobState.add JobState.needs_input j.id),
      asked db
          (db.questions ++ question w j mal_id p db.next_question ∷ [])
          (db.next_question + 1)
          (noticed w j mal_id ∷ db.events),
    )
unfolding ask_and_park ask store_question logs moves expiry
parked w j mal_id p db e s =
    ap (λ r. after r (λ _. return false))
      (no_add_ask
        (asked db (db.questions ++ question w j mal_id p db.next_question ∷ [])
          (db.next_question + 1) (noticed w j mal_id ∷ db.events))
        w.now j too_large e s)

module _ (w : World) (j : Job) (t : ChosenTorrent) (db : Db) (r : Ready w j t db) where
  open r use {context_of, inputs}

  pub payload : Payload
  payload =
      match_review (expected_show inputs)
        (large_options t.info_hash (candidate_rows w.parse_release context_of.mal_id db)) too_large

  pub added_question : Question
  added_question = question w j context_of.mal_id payload db.next_question

  -- The database with the question and its log line.
  pub left : Db
  left =
      asked db (db.questions ++ added_question ∷ []) (db.next_question + 1)
        (noticed w j context_of.mal_id ∷ db.events)

module _ (w : World) (j : Job) (t : ChosenTorrent) (db : Db) (r : Ready w j t db)
    (here : find_job j.id db.jobs ≡ some j) (adding : j.state ≡ JobState.add)
    (large : large_bytes < t.size_bytes) (quiet : approved j.id t db.questions ≡ false) where
  open r use {context_of, inputs, known, room, running, chosen, loaded}

  not_consented :
      ask_consent w j context_of.mal_id t db
      ≡ (err (illegal_transition JobState.add JobState.needs_input j.id), left w j t db r)
  unfolding ask_consent left added_question payload
  not_consented =
      ap
        (λ r.
          after (r, db)
            (λ i db'.
              ask_and_park w j context_of.mal_id
                (match_review (expected_show i)
                  (large_options t.info_hash (candidate_rows w.parse_release context_of.mal_id db'))
                  too_large)
                db'))
        loaded
      ∙ parked w j context_of.mal_id (payload w j t db r) db here adding

  not_confirmed :
      confirm_large_download w j context_of.mal_id t db
      ≡ (err (illegal_transition JobState.add JobState.needs_input j.id), left w j t db r)
  unfolding confirm_large_download
  not_confirmed =
      ap (λ b. if b then (ok true, db) else ask_consent w j context_of.mal_id t db)
        {x = leb t.size_bytes large_bytes || approved j.id t db.questions} {y = false}
        (ground (arith, large, quiet))
      ∙ not_consented

  pub refused_add :
      add_step w j db
      ≡ (err (illegal_transition JobState.add JobState.needs_input j.id), left w j t db r)
  unfolding add_step context add_running chosen_torrent add_chosen
  refused_add =
      ap
        (λ c.
          after {A = JobContext} {B = JobState} (row c, db)
            (λ c. elim (blocking_reason w) as (λ _. Run JobState) [
              | some reason ↦ block w j reason
              | none ↦ add_running w j c.mal_id
            ]))
        known
      ∙ ap
          (λ b.
            elim b as (λ _. Run JobState) [
              | some reason ↦ block w j reason
              | none ↦ add_running w j context_of.mal_id
            ]
              db)
          room
      ∙ ap
          (λ v.
            elim v as (λ _. Run JobState) [
              | err e ↦ unusable w j context_of.mal_id e
              | ok version ↦ chosen_torrent j >>= add_chosen w j context_of.mal_id
            ]
              db)
          running
      ∙ ap (λ t. add_chosen w j context_of.mal_id t db) chosen
      ∙ ap
          (λ r. after {A = Bool} {B = JobState} r (λ consent.
            if consent
            then add_to w j context_of.mal_id t (w.resolve_folder w.config.download_folder)
            else return JobState.needs_input))
          not_confirmed
