-- ===== src/Worker/Laws/Moves/Finishing.antt =====
-- The steps `monitor` and `finalize` settle their job.
use genrl_downloader.Prelude.{ℕ, not, ◌&&◌, ◌||◌, ◌≡◌, refl, ltb, unwrap_or, Option, none, some}
use genrl_downloader.Error.{Result, ok, err, is_transient}
use genrl_downloader.Text.{Text}
use genrl_downloader.Models.JobState.{JobState}
use genrl_downloader.Jobs.{Job, Db}
use genrl_downloader.Jobs.Enqueue.{reject_candidate}
use genrl_downloader.Planner.Apply.Single.{find_show}
use genrl_downloader.Worker.Episodes.{mark_done}
use genrl_downloader.Worker.Run.{writes, lift, row}
use genrl_downloader.Worker.World.{
  World, ChosenTorrent, TorrentInfo, is_complete, FinalizeOutcome, filed, needs_input,
}
use genrl_downloader.Worker.Helpers.{context, chosen_torrent}
use genrl_downloader.Worker.Acquire.{is_outage}
use genrl_downloader.Worker.Add.{lacks_space}
use genrl_downloader.Worker.Finish.{
  has_moved, is_stalled, poll_again, drop_stalled, watch, monitored, monitor_chosen, monitor_step,
  verified, own, is_io, after_filing, file_it, file_into, made_folder, prepare, verify, forgotten,
  still_waiting, finished, finalize_chosen, finalize_step,
}
use genrl_downloader.Worker.Laws.{
  Ends, Calm-Ends, then-Ends, seq-Calm, seq-Ends, branch-Calm, branch-Ends, same-Calm, moves-Ends,
}
use genrl_downloader.Worker.Laws.Parts.{
  return-Calm, lift-Calm, reads-Calm, context-Calm, logs-Calm, block-Ends, fail-Ends, next-Ends,
  chosen-Calm, reschedules-Calm, progress-Calm,
}

module _ (w : World) (j : Job) (s : JobState) where
  poll-Ends : Ends j.id s (poll_again w j)
  unfolding poll_again
  poll-Ends =
      Calm-Ends j.id s (seq-Calm j.id s _ _ (reschedules-Calm w j s _ _) (return-Calm w j s _))

  drop-Ends : (mal_id : ℕ) (t : ChosenTorrent) → Ends j.id s (drop_stalled w j mal_id t)
  unfolding drop_stalled reject_candidate
  drop-Ends mal_id t =
      seq-Ends j.id s _ _
        (same-Calm j.id s (writes (λ db. (reject_candidate db t.info_hash).1)) (λ db. refl))
        (next-Ends w j s mal_id _)

  watch-Ends :
      (mal_id : ℕ) (t : ChosenTorrent) (i : TorrentInfo) → Ends j.id s (watch w j mal_id t i)
  unfolding watch
  watch-Ends mal_id t i = branch-Ends j.id s (is_complete i) (moves-Ends w j s _ _ _) (
      seq-Ends j.id s _ _ (progress-Calm w j s i.progress (has_moved j i)) (
        branch-Ends j.id s (not (has_moved j i) && is_stalled w j i) (drop-Ends mal_id t)
          poll-Ends))

  monitored-Ends :
      (mal_id : ℕ) (t : ChosenTorrent) (r : Result (Option TorrentInfo))
      → Ends j.id s (monitored w j mal_id t r)
  unfolding monitored
  monitored-Ends mal_id t (err e) =
      branch-Ends j.id s (is_outage e) (block-Ends w j s _) (fail-Ends w j s _)
  monitored-Ends mal_id t (ok none) = next-Ends w j s mal_id _
  monitored-Ends mal_id t (ok (some i)) = watch-Ends mal_id t i

  monitor_chosen-Ends :
      (mal_id : ℕ) (t : Option ChosenTorrent) → Ends j.id s (monitor_chosen w j mal_id t)
  unfolding monitor_chosen
  monitor_chosen-Ends mal_id none = moves-Ends w j s _ _ _
  monitor_chosen-Ends mal_id (some t) =
      seq-Ends j.id s (lift w.client) _ (lift-Calm w j s w.client)
        (monitored-Ends mal_id t (w.get_torrent t.info_hash))

  pub monitor_step-Ends : Ends j.id s (monitor_step w j)
  unfolding monitor_step
  monitor_step-Ends = then-Ends j.id s (context j) _ (context-Calm w j s) (λ c.
      then-Ends j.id s (chosen_torrent j) (monitor_chosen w j c.mal_id) (chosen-Calm w j s)
        (monitor_chosen-Ends c.mal_id))

-- Filing a download leaves the jobs as they are.
abbrev pub FilesOnly : World → Type 0
FilesOnly w =
    (j : Job) (path : Text) (size : ℕ) (db : Db) → ((w.finalize j path size).1 db).jobs ≡ db.jobs

module _ (w : World) (files : FilesOnly w) (j : Job) (s : JobState) where
  own-Ends : (mal_id : ℕ) (path : Text) (size : ℕ) → Ends j.id s (own w j mal_id path size)
  unfolding own mark_done
  own-Ends mal_id path size =
      seq-Ends j.id s _ _
        (same-Calm j.id s (writes (mark_done j.episode_id path size)) (λ db. refl))
        (seq-Ends j.id s _ _
          (branch-Calm j.id s w.config.remove_when_finished (lift-Calm w j s w.client)
            (return-Calm w j s tt))
          (seq-Ends j.id s _ _ (logs-Calm w j s mal_id _) (moves-Ends w j s _ _ _)))

  filing-Ends :
      (mal_id size : ℕ) (r : Result FinalizeOutcome) → Ends j.id s (after_filing w j mal_id size r)
  unfolding after_filing
  filing-Ends mal_id size (ok (filed path)) = own-Ends mal_id path size
  filing-Ends mal_id size (ok needs_input) = moves-Ends w j s _ _ _
  filing-Ends mal_id size (err e) =
      branch-Ends j.id s (is_transient e || is_io e) (block-Ends w j s _) (fail-Ends w j s _)

  file_it-Ends : (mal_id : ℕ) (path : Text) (size : ℕ) → Ends j.id s (file_it w j mal_id path size)
  unfolding file_it
  file_it-Ends mal_id path size =
      seq-Ends j.id s _ _ (same-Calm j.id s (writes (w.finalize j path size).1) (files j path size))
        (filing-Ends mal_id size (w.finalize j path size).0)

  file_into-Ends :
      (mal_id : ℕ) (path : Text) (size : ℕ) (folder : Text)
      → Ends j.id s (file_into w j mal_id path size folder)
  unfolding file_into
  file_into-Ends mal_id path size folder =
      branch-Ends j.id s (not (w.writable folder)) (block-Ends w j s _) (
        branch-Ends j.id s (lacks_space w folder size) (block-Ends w j s _)
          (file_it-Ends mal_id path size))

  prepare-Ends : (mal_id : ℕ) (path : Text) (size : ℕ) → Ends j.id s (prepare w j mal_id path size)
  unfolding prepare
  prepare-Ends mal_id path size =
      then-Ends j.id s _ _ (reads-Calm w j s (λ db. row (find_show mal_id db.shows))) (λ _.
        then-Ends j.id s (lift (w.show_folder mal_id)) _ (lift-Calm w j s (w.show_folder mal_id))
          (λ folder.
            branch-Ends j.id s (made_folder w folder) (file_into-Ends mal_id path size folder)
              (block-Ends w j s _)))

  verify-Ends : (mal_id : ℕ) (path : Text) (size : ℕ) → Ends j.id s (verify w j mal_id path size)
  unfolding verify
  verify-Ends mal_id path size =
      branch-Ends j.id s (verified w path size) (prepare-Ends mal_id path size) (fail-Ends w j s _)

  forgotten-Ends : (mal_id : ℕ) (t : ChosenTorrent) → Ends j.id s (forgotten w j mal_id t)
  unfolding forgotten
  forgotten-Ends mal_id t =
      let path = w.join w.config.download_folder t.name in
      branch-Ends j.id s (ltb 0 (unwrap_or (w.file_len path) 0)) (verify-Ends mal_id path _)
        (moves-Ends w j s _ _ _)

  waiting-Ends : Ends j.id s (still_waiting w j)
  unfolding still_waiting
  waiting-Ends =
      Calm-Ends j.id s (seq-Calm j.id s _ _ (reschedules-Calm w j s _ _) (return-Calm w j s _))

  finished-Ends :
      (mal_id : ℕ) (t : ChosenTorrent) (r : Result (Option TorrentInfo))
      → Ends j.id s (finished w j mal_id t r)
  unfolding finished
  finished-Ends mal_id t (err e) =
      branch-Ends j.id s (is_outage e) (block-Ends w j s _) (fail-Ends w j s _)
  finished-Ends mal_id t (ok (some i)) =
      branch-Ends j.id s (is_complete i) (verify-Ends mal_id i.content_path i.size) waiting-Ends
  finished-Ends mal_id t (ok none) = forgotten-Ends mal_id t

  finalize_chosen-Ends :
      (mal_id : ℕ) (t : Option ChosenTorrent) → Ends j.id s (finalize_chosen w j mal_id t)
  unfolding finalize_chosen
  finalize_chosen-Ends mal_id none = moves-Ends w j s _ _ _
  finalize_chosen-Ends mal_id (some t) =
      seq-Ends j.id s (lift w.client) _ (lift-Calm w j s w.client)
        (finished-Ends mal_id t (w.get_torrent t.info_hash))

  pub finalize_step-Ends : Ends j.id s (finalize_step w j)
  unfolding finalize_step
  finalize_step-Ends = then-Ends j.id s (context j) _ (context-Calm w j s) (λ c.
      then-Ends j.id s (chosen_torrent j) (finalize_chosen w j c.mal_id) (chosen-Calm w j s)
        (finalize_chosen-Ends c.mal_id))
