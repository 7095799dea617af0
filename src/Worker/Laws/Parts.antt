-- ===== src/Worker/Laws/Parts.antt =====
-- The calls that leave the job in its state, and those that settle it.
use genrl_downloader.Prelude.{
  ℕ, Bool, true, ◌≡◌, refl, ap, ◌∙◌, some, List, [], ◌∷◌, ◌++◌, if◌then◌else◌, arith,
}
use genrl_downloader.Error.{Result, ok, err}
use genrl_downloader.Text.{Text}
use genrl_downloader.Models.JobState.{JobState}
use genrl_downloader.Questions.{Payload}
use genrl_downloader.Questions.Store
use genrl_downloader.Jobs.{Job, Db, Episode, find_job}
use genrl_downloader.Jobs.Due.{note_progress}
use genrl_downloader.Jobs.Move.{blocked_options}
use genrl_downloader.Jobs.Move.Legal.{rescheduled}
use genrl_downloader.Jobs.Enqueue.{enqueue_search}
use genrl_downloader.Jobs.Enqueue.Grow.{enqueue_search_grows}
use genrl_downloader.Worker.Run.{writes, return, lift}
use genrl_downloader.Worker.World.{World}
use genrl_downloader.Worker.Helpers.{
  context, logs, block, set_chosen, reschedules, store_question, ask, episode_mal_id,
  fail_or_reschedule, next_candidate, gives_up, ensure_service_notice, chosen_torrent, counting,
}
use genrl_downloader.Worker.Add.{enqueue_each, delete_covered, is_covered, take_batch}
use genrl_downloader.Worker.World.{ChosenTorrent}
use genrl_downloader.Worker.Inbox.{set_torrent, torrent_id_of}
use genrl_downloader.Worker.Laws.{
  Calm, Ends, Calm-Ends, then-Calm, then-Ends, branch-Ends, same-Calm, update-Calm, moves-Ends,
}
use genrl_downloader.Worker.Inbox.Laws.{Stands}

module _ (w : World) (j : Job) (s : JobState) where
  pub return-Calm : {A : Type 0} (a : A) → Calm j.id s (return a)
  return-Calm a = same-Calm j.id s (return a) (λ db. refl)

  pub lift-Calm : {A : Type 0} (r : Result A) → Calm j.id s (lift r)
  lift-Calm r = same-Calm j.id s (lift r) (λ db. refl)

  pub reads-Calm : {A : Type 0} (f : Db → Result A) → Calm j.id s (λ db. (f db, db))
  reads-Calm f = same-Calm j.id s (λ db. (f db, db)) (λ db. refl)

  pub context-Calm : Calm j.id s (context j)
  unfolding context
  context-Calm = same-Calm j.id s (context j) (λ db. refl)

  pub logs-Calm : (mal_id : ℕ) (text : Text) → Calm j.id s (logs w j mal_id text)
  unfolding logs
  logs-Calm mal_id text = same-Calm j.id s (logs w j mal_id text) (λ db. refl)

  pub block-Ends : (reason : Text) → Ends j.id s (block w j reason)
  unfolding block
  block-Ends reason = moves-Ends w j s JobState.blocked reason (blocked_options j.state)

  pub set_chosen-Calm : (hash : Text) → Calm j.id s (set_chosen j hash)
  unfolding set_chosen set_torrent
  set_chosen-Calm hash =
      update-Calm j.id s (set_chosen j hash)
        (λ db r. record r { torrent_id = torrent_id_of hash db }) (λ db. refl)
        (λ db r. (refl, refl))

  pub reschedules-Calm : (at : ℕ) (reason : Text) → Calm j.id s (reschedules w j at reason)
  unfolding reschedules
  reschedules-Calm at reason = record {
    keeps = λ db (r, found, at_s). (
      record r { next_run_at = some at; last_error = some reason; updated_at = w.now },
      (rescheduled db w.now j.id at reason r found).1,
      at_s,
    );
  }

  pub ask-Calm :
      (mal_id : ℕ) (payload : Payload) (reason : Text) → Calm j.id s (ask w j mal_id payload reason)
  unfolding ask store_question logs
  ask-Calm mal_id payload reason = same-Calm j.id s (ask w j mal_id payload reason) (λ db. refl)

  pub episode_mal_id-Calm : Calm j.id s (episode_mal_id j)
  unfolding episode_mal_id
  episode_mal_id-Calm = same-Calm j.id s (episode_mal_id j) (λ db. refl)

  pub fail-Ends : (reason : Text) → Ends j.id s (fail_or_reschedule w j reason)
  unfolding fail_or_reschedule
  fail-Ends reason =
      branch-Ends j.id s (gives_up w j)
        (then-Ends j.id s (episode_mal_id j) _ episode_mal_id-Calm (λ mal_id.
          then-Ends j.id s (ask w j mal_id _ reason) _ (ask-Calm mal_id _ reason)
            (λ _. moves-Ends w j s JobState.failed reason counting)))
        (Calm-Ends j.id s
          (then-Calm j.id s _ _ (reschedules-Calm _ reason) (λ _. return-Calm j.state)))

  pub next-Ends : (mal_id : ℕ) (reason : Text) → Ends j.id s (next_candidate w j mal_id reason)
  unfolding next_candidate
  next-Ends mal_id reason =
      branch-Ends j.id s (gives_up w j)
        (then-Ends j.id s (ask w j mal_id _ reason) _ (ask-Calm mal_id _ reason)
          (λ _. moves-Ends w j s JobState.failed reason (record counting { clear_torrent = true })))
        (moves-Ends w j s JobState.search reason (record counting { clear_torrent = true }))

  pub notice-Calm : (mal_id : ℕ) → Calm j.id s (ensure_service_notice w mal_id)
  unfolding ensure_service_notice Store.ask
  notice-Calm mal_id = same-Calm j.id s (ensure_service_notice w mal_id) (λ db. ground arith)

  pub chosen-Calm : Calm j.id s (chosen_torrent j)
  unfolding chosen_torrent
  chosen-Calm = same-Calm j.id s (chosen_torrent j) (λ db. refl)

  pub progress-Calm :
      (progress : ℕ) (moved : Bool)
      → Calm j.id s (writes (λ db. note_progress db w.now j.id progress moved))
  unfolding note_progress
  progress-Calm progress moved =
      update-Calm j.id s (writes (λ db. note_progress db w.now j.id progress moved))
        (λ db r. record r {
          progress = progress;
          last_progress_at = if moved then some w.now else r.last_progress_at;
        })
        (λ db. refl) (λ db r. (refl, refl))

  -- Rows added behind the others do not hide one.
  still_there :
      (js new : List Job) {r : Job} → find_job j.id js ≡ some r → find_job j.id (js ++ new) ≡ some r
  unfolding find_job
  still_there [] new {r} e = absurd (ground arith)
  still_there (k ∷ js) new {r} e = ground (arith, still_there js new {r = r})

  continued :
      (r : Result ℕ) (db : Db) (es : List Episode)
      → Stands j.id s db
      → Calm j.id s (enqueue_each w es)
      → Stands j.id s
          (elim r as (λ _. Result (Unit {0}) × Db) [
            | err x ↦ (err x, db)
            | ok _ ↦ enqueue_each w es db
          ]).1
  continued (ok n) db es h c = c.keeps db h
  continued (err x) db es h c = h

  pub enqueue_each-Calm : (es : List Episode) → Calm j.id s (enqueue_each w es)
  unfolding enqueue_each
  enqueue_each-Calm [] = same-Calm j.id s (enqueue_each w []) (λ db. refl)
  enqueue_each-Calm (e ∷ es) = record {
    keeps = λ db (r, found, at).
        let (new, grown, _, _) = enqueue_search_grows db w.now e.id in
        continued (enqueue_search db w.now e.id).0 (enqueue_search db w.now e.id).1 es
          (r, ap (find_job j.id) grown ∙ still_there db.jobs new {r = r} found, at)
          (enqueue_each-Calm es);
  }

  not_deleted :
      (mal_id : ℕ) (es : List Episode) (js : List Job) {r : Job}
      → find_job j.id js ≡ some r
      → find_job j.id (delete_covered j.id mal_id es js) ≡ some r
  unfolding find_job delete_covered is_covered
  not_deleted mal_id es [] {r} e = e
  not_deleted mal_id es (k ∷ js) {r} e = ground (arith, not_deleted mal_id es js {r = r})

  pub take_batch-Calm :
      (mal_id : ℕ) (t : ChosenTorrent) → Calm j.id s (writes (take_batch j mal_id t))
  unfolding take_batch
  take_batch-Calm mal_id t = record {
    keeps = λ db (r, found, at). (r, not_deleted mal_id db.episodes db.jobs {r = r} found, at);
  }
