-- ===== src/Worker/Laws/Moves.antt =====
-- Every step settles its job.
pub mod Adding
pub mod Finishing
use genrl_downloader.Prelude.{
  ℕ, ◌+◌, Bool, true, false, not, ◌&&◌, ◌||◌, ◌≡◌, refl, sym, ap, ◌∙◌, Option, none, some, List, [],
  ◌∷◌, if◌then◌else◌, arith, Bool-cases, unwrap_or, map,
}
use genrl_downloader.Error.{Error, Result, ok, err}
use genrl_downloader.Text.{Text, codes}
use genrl_downloader.Models.JobState.{JobState}
use genrl_downloader.Models.JobState
use genrl_downloader.Rules.{Rules, for_show}
use genrl_downloader.Score.{Candidate, Rejection}
use genrl_downloader.Score.Evaluate.{Ranked, rank, truncate}
use genrl_downloader.Questions.{match_review, low_seeds, batch_only}
use genrl_downloader.Matching.{
  AskReason, thin_seeds, no_confident_match, too_close, Verdict, auto, not_found, decide_verdict,
}
use genrl_downloader.Matching
use genrl_downloader.Jobs.{Job, Db}
use genrl_downloader.Jobs.Move.{default}
use genrl_downloader.Jobs.Enqueue.{RememberedCandidate, remember_candidate}
use genrl_downloader.Worker.Run.{Run, after, ◌>>=◌, ◌>>◌, writes, reads, return, lift, row}
use genrl_downloader.Worker.World.{World, JobContext}
use genrl_downloader.Worker.Inputs.{
  TargetInputs, load_inputs, score_target, expected_show, to_option, candidate_rows,
}
use genrl_downloader.Worker.Helpers.{
  context, logs, moves, block, set_chosen, ask, fail_or_reschedule,
}
use genrl_downloader.Worker.Acquire.{
  resolved, fetch_metadata, search_names, remember_all, remembered, is_outage, found, search_nyaa,
  search_resolved, search_step, store_scores, all_batches, ask_batch, reason_text, ask_thin,
  ask_review, follow_verdict, choose_ranked, choose_from, choose_step,
}
use genrl_downloader.Worker.Laws.{
  Calm, Ends, Calm-Ends, then-Calm, then-Ends, seq-Calm, seq-Ends, branch-Ends, same-Calm,
  moves-Ends,
}
use genrl_downloader.Worker.Laws.Parts.{
  return-Calm, reads-Calm, context-Calm, logs-Calm, block-Ends, set_chosen-Calm, ask-Calm,
  fail-Ends,
}

one : (db : Db) (now : ℕ) (c : RememberedCandidate) → (remember_candidate db now c).1.jobs ≡ db.jobs
unfolding remember_candidate
one db now c = ground arith

remember_all-jobs :
    (w : World) (mal_id : ℕ) (cs : List Candidate) (db : Db)
    → (remember_all w mal_id cs db).jobs ≡ db.jobs
unfolding remember_all
remember_all-jobs w mal_id [] db = refl
remember_all-jobs w mal_id (c ∷ cs) db =
    remember_all-jobs w mal_id cs (remember_candidate db w.now (remembered mal_id c)).1
    ∙ one db w.now (remembered mal_id c)

store_scores-jobs : (w : World) (rs : List Ranked) (db : Db) → (store_scores w rs db).jobs ≡ db.jobs
unfolding store_scores
store_scores-jobs w [] db = refl
store_scores-jobs w (r ∷ rs) db = store_scores-jobs w rs _

module _ (w : World) (j : Job) (s : JobState) where
  found-Ends : (c : JobContext) (r : Result (List Candidate)) → Ends j.id s (found w j c r)
  unfolding found
  found-Ends c (err e) = branch-Ends j.id s (is_outage e) (block-Ends w j s _) (fail-Ends w j s _)
  found-Ends c (ok []) = fail-Ends w j s _
  found-Ends c (ok (x ∷ xs)) =
      seq-Ends j.id s _ _
        (same-Calm j.id s (writes (remember_all w c.mal_id (x ∷ xs)))
          (remember_all-jobs w c.mal_id (x ∷ xs)))
        (seq-Ends j.id s _ _ (logs-Calm w j s c.mal_id _) (moves-Ends w j s _ _ _))

  search_nyaa-Ends : (c : JobContext) → Ends j.id s (search_nyaa w j c)
  unfolding search_nyaa
  search_nyaa-Ends c =
      then-Ends j.id s _ _ (reads-Calm w j s (load_inputs w.regex w.chars c.mal_id)) (λ inputs.
        branch-Ends j.id s (not w.would_allow) (block-Ends w j s _) (
          then-Ends j.id s _ _ (reads-Calm w j s (λ db. for_show w.json c.mal_id db.rules))
            (λ rules. found-Ends c (w.search_candidates (search_names w rules inputs)))))

  resolved-Calm : (mal_id : ℕ) → Calm j.id s (resolved mal_id)
  unfolding resolved
  resolved-Calm mal_id = same-Calm j.id s (resolved mal_id) (λ db. refl)

  fetch-Calm : (mal_id : ℕ) → Calm j.id s (fetch_metadata w mal_id)
  unfolding fetch_metadata
  fetch-Calm mal_id = same-Calm j.id s (fetch_metadata w mal_id) (λ db. refl)

  search_resolved-Ends : (c : JobContext) (known : Bool) → Ends j.id s (search_resolved w j c known)
  unfolding search_resolved
  search_resolved-Ends c true = search_nyaa-Ends c
  search_resolved-Ends c false = seq-Ends j.id s _ _ (fetch-Calm c.mal_id) (
      then-Ends j.id s (resolved c.mal_id) _ (resolved-Calm c.mal_id)
        (λ now. branch-Ends j.id s now (search_nyaa-Ends c) (block-Ends w j s _)))

  pub search_step-Ends : Ends j.id s (search_step w j)
  unfolding search_step
  search_step-Ends = then-Ends j.id s (context j) _ (context-Calm w j s) (λ c.
      then-Ends j.id s (resolved c.mal_id) _ (resolved-Calm c.mal_id) (search_resolved-Ends c))

  ask_batch-Ends : (c : JobContext) (best : Ranked) → Ends j.id s (ask_batch w j c best)
  unfolding ask_batch
  ask_batch-Ends c best = Calm-Ends j.id s (
      seq-Calm j.id s _ _ (set_chosen-Calm w j s best.candidate.info_hash)
        (seq-Calm j.id s _ _ (ask-Calm w j s c.mal_id _ _) (return-Calm w j s _)))

  ask_review-Ends :
      (c : JobContext) (inputs : TargetInputs) (reason : AskReason) (ranked : List Ranked)
      → Ends j.id s (ask_review w j c inputs reason ranked)
  unfolding ask_review
  ask_review-Ends c inputs reason ranked =
      seq-Ends j.id s _ _ (ask-Calm w j s c.mal_id _ _) (moves-Ends w j s _ _ _)

  ask_thin-Ends :
      (c : JobContext) (inputs : TargetInputs) (seeders : ℕ) (best : Ranked)
      → Ends j.id s (ask_thin w j c inputs seeders best)
  unfolding ask_thin
  ask_thin-Ends c inputs seeders best =
      seq-Ends j.id s _ _ (set_chosen-Calm w j s best.candidate.info_hash)
        (seq-Ends j.id s _ _ (ask-Calm w j s c.mal_id _ _) (moves-Ends w j s _ _ _))

  verdict-Ends :
      (c : JobContext) (inputs : TargetInputs) (v : Verdict)
      → Ends j.id s (follow_verdict w j c inputs v)
  unfolding follow_verdict
  verdict-Ends c inputs (auto chosen thin) =
      seq-Ends j.id s _ _ (set_chosen-Calm w j s chosen.candidate.info_hash)
        (moves-Ends w j s _ _ _)
  verdict-Ends c inputs (Matching.ask (thin_seeds n) (best ∷ rest)) = ask_thin-Ends c inputs n best
  verdict-Ends c inputs (Matching.ask (thin_seeds n) []) =
      ask_review-Ends c inputs (thin_seeds n) []
  verdict-Ends c inputs (Matching.ask no_confident_match ranked) =
      ask_review-Ends c inputs no_confident_match ranked
  verdict-Ends c inputs (Matching.ask too_close ranked) = ask_review-Ends c inputs too_close ranked
  verdict-Ends c inputs (not_found rejections) = fail-Ends w j s _

  ranked-Ends :
      (c : JobContext) (inputs : TargetInputs) (rules : Rules)
      (r : List Ranked × List (Text × Rejection))
      → Ends j.id s (choose_ranked w j c inputs rules r)
  unfolding choose_ranked
  ranked-Ends c inputs rules ([], rejected) =
      verdict-Ends c inputs (decide_verdict [] rejected inputs.auto rules w.config.scoring)
  ranked-Ends c inputs rules (best ∷ rest, rejected) =
      seq-Ends j.id s _ _
        (same-Calm j.id s (writes (store_scores w (best ∷ rest)))
          (store_scores-jobs w (best ∷ rest)))
        (branch-Ends j.id s (not inputs.fully_aired && all_batches (best ∷ rest))
          (ask_batch-Ends c best)
          (verdict-Ends c inputs
            (decide_verdict (best ∷ rest) rejected inputs.auto rules w.config.scoring)))

  choose_from-Ends :
      (c : JobContext) (inputs : TargetInputs) (rules : Rules) (rows : List Candidate)
      → Ends j.id s (choose_from w j c inputs rules rows)
  unfolding choose_from
  choose_from-Ends c inputs rules [] = fail-Ends w j s _
  choose_from-Ends c inputs rules (x ∷ xs) =
      ranked-Ends c inputs rules
        (rank w.scale (score_target inputs (some c.number)) rules w.config.scoring w.now (x ∷ xs))

  pub choose_step-Ends : Ends j.id s (choose_step w j)
  unfolding choose_step
  choose_step-Ends = then-Ends j.id s (context j) _ (context-Calm w j s) (λ c.
      then-Ends j.id s _ _ (reads-Calm w j s (λ db. for_show w.json c.mal_id db.rules)) (λ rules.
        then-Ends j.id s _ _ (reads-Calm w j s (load_inputs w.regex w.chars c.mal_id)) (λ inputs.
          then-Ends j.id s _ _
            (reads-Calm w j s (λ db. ok (candidate_rows w.parse_release c.mal_id db)))
            (choose_from-Ends c inputs rules))))
