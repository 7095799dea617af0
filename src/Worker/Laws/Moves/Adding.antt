-- ===== src/Worker/Laws/Moves/Adding.antt =====
-- The step `add` settles its job.
use genrl_downloader.Prelude.{
  ℕ, Bool, true, false, not, ◌||◌, ◌≡◌, ◌≢◌, refl, Option, none, some, leb, if◌then◌else◌, arith,
  Bool-cases, inl, inr,
}
use genrl_downloader.Error.{Error, Result, ok, err, is_connection_failure}
use genrl_downloader.Text.{Text, codes}
use genrl_downloader.Models.JobState.{JobState}
use genrl_downloader.Questions.{Payload, match_review}
use genrl_downloader.Jobs.{Job, Db}
use genrl_downloader.Jobs.Move.{default}
use genrl_downloader.Worker.Run.{Run, after, ◌>>=◌, ◌>>◌, return, lift}
use genrl_downloader.Worker.World.{World, ChosenTorrent}
use genrl_downloader.Worker.Inputs.{load_inputs, expected_show, candidate_rows}
use genrl_downloader.Worker.Helpers.{
  context, moves, block, ask, fail_or_reschedule, chosen_torrent, blocking_reason,
}
use genrl_downloader.Worker.Acquire.{is_outage}
use genrl_downloader.Worker.Add.{
  large_bytes, approved, large_options, too_large, ask_and_park, ask_consent,
  confirm_large_download, siblings, enqueue_siblings, is_batch, cover, added, send, lacks_space,
  add_to, add_chosen, is_auth, unusable, add_running, add_step,
}
use genrl_downloader.Worker.Laws.{
  Calm, Ends, then-Ends, seq-Ends, return-Ends, stop-Ends, branch-Calm, branch-Ends, moves-Ends,
}
use genrl_downloader.Worker.Laws.Parts.{
  return-Calm, lift-Calm, reads-Calm, context-Calm, logs-Calm, block-Ends, ask-Calm, fail-Ends,
  chosen-Calm, notice-Calm, enqueue_each-Calm, take_batch-Calm,
}

module _ (w : World) (j : Job) (s : JobState) where
  siblings-Calm : (mal_id current : ℕ) → Calm j.id s (enqueue_siblings w mal_id current)
  unfolding enqueue_siblings
  siblings-Calm mal_id current = record {
    keeps =
        λ db h. (enqueue_each-Calm w j s (siblings mal_id current db.jobs db.episodes)).keeps db h;
  }

  cover-Calm : (mal_id : ℕ) (t : ChosenTorrent) → Calm j.id s (cover w j mal_id t)
  unfolding cover
  cover-Calm mal_id t =
      branch-Calm j.id s (is_batch w t) (take_batch-Calm w j s mal_id t)
        (siblings-Calm mal_id j.episode_id)

  added-Ends : (mal_id : ℕ) (t : ChosenTorrent) → Ends j.id s (added w j mal_id t)
  unfolding added
  added-Ends mal_id t =
      seq-Ends j.id s _ _ (cover-Calm mal_id t)
        (seq-Ends j.id s _ _ (logs-Calm w j s mal_id _) (moves-Ends w j s _ _ _))

  answered-Ends :
      (mal_id : ℕ) (t : ChosenTorrent) (r : Result (Unit {0}))
      → Ends j.id s (elim r as (λ _. Run JobState) [
        | ok _ ↦ added w j mal_id t
        | err e ↦
            if is_outage e
            then block w j (codes "qBittorrent refused the add")
            else fail_or_reschedule w j (codes "add failed")
      ])
  answered-Ends mal_id t (ok _) = added-Ends mal_id t
  answered-Ends mal_id t (err e) =
      branch-Ends j.id s (is_outage e) (block-Ends w j s _) (fail-Ends w j s _)

  send-Ends : (mal_id : ℕ) (t : ChosenTorrent) → Ends j.id s (send w j mal_id t)
  unfolding send
  send-Ends mal_id t =
      seq-Ends j.id s (lift w.client) _ (lift-Calm w j s w.client)
        (answered-Ends mal_id t (w.add t.magnet))

  add_to-Ends :
      (mal_id : ℕ) (t : ChosenTorrent) (path : Text) → Ends j.id s (add_to w j mal_id t path)
  unfolding add_to
  add_to-Ends mal_id t path = branch-Ends j.id s (not (w.exists path)) (block-Ends w j s _) (
      branch-Ends j.id s (not (w.writable path)) (block-Ends w j s _) (
        branch-Ends j.id s (lacks_space w path t.size_bytes) (block-Ends w j s _)
          (send-Ends mal_id t)))

  park-Ends : (mal_id : ℕ) (p : Payload) → Ends j.id s (ask_and_park w j mal_id p)
  unfolding ask_and_park
  park-Ends mal_id p =
      seq-Ends j.id s _ _ (ask-Calm w j s mal_id p too_large)
        (return-Ends j.id s _ false (moves-Ends w j s JobState.needs_input too_large default))

  consent-Ends : (mal_id : ℕ) (t : ChosenTorrent) → Ends j.id s (ask_consent w j mal_id t)
  unfolding ask_consent
  consent-Ends mal_id t =
      then-Ends j.id s _ _ (reads-Calm w j s (load_inputs w.regex w.chars mal_id)) (λ inputs.
        then-Ends j.id s _ _
          (reads-Calm w j s (λ db. ok (candidate_rows w.parse_release mal_id db)))
          (λ rows.
            park-Ends mal_id
              (match_review (expected_show inputs) (large_options t.info_hash rows) too_large)))

  never_true :
      {A : Type 0} (r : Result A) (db : Db) (f : A → Run Bool)
      → ((a : A) (db : Db) → (f a db).0 ≢ ok true)
      → (after (r, db) f).0 ≢ ok true
  never_true (ok a) db f k = k a db
  never_true (err e) db f k = λ h. absurd (ground arith)

  not_parked : (mal_id : ℕ) (p : Payload) (db : Db) → (ask_and_park w j mal_id p db).0 ≢ ok true
  unfolding ask_and_park
  not_parked mal_id p db =
      let asked = ask w j mal_id p too_large db in
      never_true asked.0 asked.1
        (λ _. moves w j JobState.needs_input too_large default >> return false)
        (λ _ db'.
          let moved = moves w j JobState.needs_input too_large default db' in
          never_true moved.0 moved.1 (λ _. return false) (λ _ _ h. absurd (ground arith)))

  pub no_consent :
      (mal_id : ℕ) (t : ChosenTorrent) (db : Db) → (ask_consent w j mal_id t db).0 ≢ ok true
  unfolding ask_consent
  no_consent mal_id t db = never_true (load_inputs w.regex w.chars mal_id db) db _ (λ inputs db'.
      not_parked mal_id
        (match_review (expected_show inputs)
          (large_options t.info_hash (candidate_rows w.parse_release mal_id db')) too_large)
        db')

  stops :
      (mal_id : ℕ) (t : ChosenTorrent) (rest : Run JobState) (start : Db) (consent : Bool)
      → (ask_consent w j mal_id t start).0 ≡ ok consent
      → (db : Db) → ((if consent then rest else return JobState.needs_input) db).1 ≡ db
  stops mal_id t rest start true e db = absurd (no_consent mal_id t start e)
  stops mal_id t rest start false e db = refl

  confirm-Ends :
      (mal_id : ℕ) (t : ChosenTorrent) (rest : Run JobState)
      → Ends j.id s rest
      → Ends j.id s (
          confirm_large_download w j mal_id t >>= λ consent.
          if consent then rest else return JobState.needs_input)
  unfolding confirm_large_download
  confirm-Ends mal_id t rest c = record {
    settles = λ db h.
        elim (Bool-cases (leb t.size_bytes large_bytes || approved j.id t db.questions)) [
          | inl yes_ ↦ rw (yes_, confirm_large_download) (c.settles db h)
          | inr asks ↦
              rw (asks, confirm_large_download)
                ((stop-Ends j.id s (ask_consent w j mal_id t)
                    (λ consent. if consent then rest else return JobState.needs_input)
                    (consent-Ends mal_id t) (stops mal_id t rest)).settles
                  db h)
        ];
  }

  add_chosen-Ends : (mal_id : ℕ) (t : Option ChosenTorrent) → Ends j.id s (add_chosen w j mal_id t)
  unfolding add_chosen
  add_chosen-Ends mal_id none = moves-Ends w j s _ _ _
  add_chosen-Ends mal_id (some t) =
      confirm-Ends mal_id t (add_to w j mal_id t (w.resolve_folder w.config.download_folder))
        (add_to-Ends mal_id t (w.resolve_folder w.config.download_folder))

  unusable-Ends : (mal_id : ℕ) (e : Error) → Ends j.id s (unusable w j mal_id e)
  unfolding unusable
  unusable-Ends mal_id e = branch-Ends j.id s (is_connection_failure e) (block-Ends w j s _) (
      seq-Ends j.id s _ _
        (branch-Calm j.id s (is_auth e) (notice-Calm w j s mal_id) (return-Calm w j s tt))
        (block-Ends w j s _))

  running-Ends :
      (mal_id : ℕ) (r : Result Text)
      → Ends j.id s (elim r as (λ _. Run JobState) [
        | err e ↦ unusable w j mal_id e
        | ok version ↦ chosen_torrent j >>= add_chosen w j mal_id
      ])
  running-Ends mal_id (err e) = unusable-Ends mal_id e
  running-Ends mal_id (ok version) =
      then-Ends j.id s (chosen_torrent j) (add_chosen w j mal_id) (chosen-Calm w j s)
        (add_chosen-Ends mal_id)

  add_running-Ends : (mal_id : ℕ) → Ends j.id s (add_running w j mal_id)
  unfolding add_running
  add_running-Ends mal_id = running-Ends mal_id w.ensure_running

  reason-Ends :
      (mal_id : ℕ) (r : Option Text)
      → Ends j.id s (elim r as (λ _. Run JobState) [
        | some reason ↦ block w j reason
        | none ↦ add_running w j mal_id
      ])
  reason-Ends mal_id (some reason) = block-Ends w j s reason
  reason-Ends mal_id none = add_running-Ends mal_id

  pub add_step-Ends : Ends j.id s (add_step w j)
  unfolding add_step
  add_step-Ends =
      then-Ends j.id s (context j) _ (context-Calm w j s)
        (λ c. reason-Ends c.mal_id (blocking_reason w))
