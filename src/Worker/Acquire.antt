-- ===== src/Worker/Acquire.antt =====
-- The steps `search` and `choose` (core/crates/genrl-core/src/worker/steps_acquire.rs).
use genrl_downloader.Prelude.{
  ℕ, Bool, true, false, not, ◌&&◌, ◌||◌, none, some, List, [], ◌∷◌, ◌++◌, if◌then◌else◌, map,
}
use genrl_downloader.Text.{Text, codes, text_eq}
use genrl_downloader.Error.{Error, Result, ok, err, is_transient, is_connection_failure}
use genrl_downloader.Models.JobState.{JobState}
use genrl_downloader.Rules.{Rules, for_show}
use genrl_downloader.Questions.{match_review, low_seeds, batch_only}
use genrl_downloader.Score.{Candidate, Rejection}
use genrl_downloader.Score.Evaluate.{Ranked, rank, truncate}
use genrl_downloader.Matching.{
  AskReason, no_confident_match, too_close, thin_seeds, Verdict, auto, not_found, decide_verdict,
}
use genrl_downloader.Matching
use genrl_downloader.Jobs.{Job, Torrent, Db}
use genrl_downloader.Jobs.Move.{default}
use genrl_downloader.Jobs.Enqueue.{RememberedCandidate, remember_candidate}
use genrl_downloader.Planner.Apply.Single.{find_show, is_resolved}
use genrl_downloader.Worker.Run.{Run, ◌>>=◌, ◌>>◌, return, reads, writes, row}
use genrl_downloader.Worker.World.{World, JobContext}
use genrl_downloader.Worker.Inputs.{
  TargetInputs, load_inputs, score_target, expected_show, to_option, candidate_rows,
}
use genrl_downloader.Worker.Helpers.{
  context, logs, moves, block, set_chosen, ask, fail_or_reschedule,
}

-- `metadata::is_resolved`
unfoldable pub resolved : ℕ → Run Bool
unfolding find_show is_resolved
resolved mal_id db =
    (elim (find_show mal_id db.shows) [ none ↦ row none | some s ↦ ok (is_resolved s) ], db)

unfoldable pub fetch_metadata : World → ℕ → Run (Unit {0})
fetch_metadata w mal_id = writes (λ db.
    let (shows, names) = w.fetch_metadata mal_id db.shows db.names in
    record db { shows = shows; names = names })

unfoldable pub batch_queries : World → ℕ → List Text → List Text
batch_queries w season [] = []
batch_queries w season (n ∷ ns) =
    (n ++ codes " Batch")
    ∷ (n ++ codes " Season " ++ w.to_string season)
    ∷ batch_queries w season ns

unfoldable pub search_names : World → Rules → TargetInputs → List Text
unfolding batch_queries
search_names w rules inputs =
    if inputs.fully_aired && rules.prefer_batch_when_finished
    then batch_queries w inputs.season inputs.names ++ inputs.names
    else inputs.names

unfoldable pub remembered : ℕ → Candidate → RememberedCandidate
remembered mal_id c = record {
  info_hash = c.info_hash;
  name = c.release.raw;
  magnet = c.magnet;
  seeders = c.seeders;
  leechers = c.leechers;
  size_bytes = c.size_bytes;
  group = c.release.group;
  resolution = c.release.resolution;
  source_url = none;
  score = 0;
  mal_id = some mal_id;
}

unfoldable pub remember_all : World → ℕ → List Candidate → Db → Db
unfolding remember_candidate remembered
remember_all w mal_id [] db = db
remember_all w mal_id (c ∷ cs) db =
    remember_all w mal_id cs (remember_candidate db w.now (remembered mal_id c)).1

unfoldable pub is_outage : Error → Bool
is_outage e = is_transient e || is_connection_failure e

-- What the answer of Nyaa leads to.
unfoldable pub found : World → Job → JobContext → Result (List Candidate) → Run JobState
unfolding is_outage block fail_or_reschedule remember_all logs moves
found w j c (err e) =
    if is_outage e
    then block w j (codes "Nyaa unreachable")
    else fail_or_reschedule w j (codes "search failed")
found w j c (ok []) = fail_or_reschedule w j (codes "no candidates on any of the show's names")
found w j c (ok (x ∷ xs)) = do
  writes (remember_all w c.mal_id (x ∷ xs))
  logs w j c.mal_id (codes "found candidates")
  moves w j JobState.choose (codes "candidates remembered") default

unfoldable pub search_nyaa : World → Job → JobContext → Run JobState
unfolding load_inputs for_show search_names found block
search_nyaa w j c = do
  inputs ← (λ db. (load_inputs w.regex w.chars c.mal_id db, db))
  if not w.would_allow then block w j (codes "Nyaa's circuit breaker is open") else (do
    rules ← (λ db. (for_show w.json c.mal_id db.rules, db))
    found w j c (w.search_candidates (search_names w rules inputs)))

-- After a fetch, if the metadata was not there.
unfoldable pub search_resolved : World → Job → JobContext → Bool → Run JobState
unfolding fetch_metadata resolved search_nyaa block
search_resolved w j c true = search_nyaa w j c
search_resolved w j c false = do
  fetch_metadata w c.mal_id
  now ← resolved c.mal_id
  if now then search_nyaa w j c else block w j (codes "Metadata unresolved")

unfoldable pub search_step : World → Job → Run JobState
unfolding context resolved search_resolved
search_step w j = do c ← context j; known ← resolved c.mal_id; search_resolved w j c known

-- `UPDATE torrents SET score = ?1 WHERE info_hash = ?2`
unfoldable pub set_score : Text → ℕ → List Torrent → List Torrent
set_score hash score [] = []
set_score hash score (t ∷ ts) =
    let rest = set_score hash score ts in
    if text_eq t.info_hash hash then record t { score = score } ∷ rest else t ∷ rest

unfoldable pub store_scores : World → List Ranked → Db → Db
unfolding set_score
store_scores w [] db = db
store_scores w (r ∷ rs) db = store_scores w rs (record db {
  torrents = set_score r.candidate.info_hash (w.stored_score r.scored.signal) db.torrents;
})

unfoldable pub all_batches : List Ranked → Bool
all_batches [] = true
all_batches (r ∷ rs) = r.candidate.release.is_batch && all_batches rs

-- Ask about a batch while the show is still airing; the job stays in its state.
unfoldable pub ask_batch : World → Job → JobContext → Ranked → Run JobState
unfolding set_chosen ask
ask_batch w j c best = do
  set_chosen j best.candidate.info_hash
  ask w j c.mal_id (batch_only best.candidate.release.raw best.candidate.seeders)
      (codes "only a batch is available")
  return JobState.needs_input

unfoldable pub reason_text : AskReason → Text
reason_text no_confident_match = codes "best candidate scored below the score needed to proceed"
reason_text too_close = codes "runner-up scored closer than the margin"
reason_text (thin_seeds seeders) = codes "only a few seeders"

unfoldable pub ask_thin : World → Job → JobContext → TargetInputs → ℕ → Ranked → Run JobState
unfolding set_chosen ask moves
ask_thin w j c inputs seeders best = do
  set_chosen j best.candidate.info_hash
  ask w j c.mal_id (low_seeds seeders best.candidate.release.raw best.candidate.magnet inputs.auto)
      (codes "only a few seeders")
  moves w j JobState.needs_input (codes "only a few seeders") default

unfoldable pub ask_review :
    World → Job → JobContext → TargetInputs → AskReason → List Ranked → Run JobState
unfolding ask moves expected_show to_option truncate reason_text
ask_review w j c inputs reason ranked = do
  ask w j c.mal_id
      (match_review (expected_show inputs)
        (map (to_option w.stored_score w.stored_ratio) (truncate 4 ranked)) (reason_text reason))
      (reason_text reason)
  moves w j JobState.needs_input (reason_text reason) default

-- What the verdict leads to. `ranked[0]` is there: `decide_verdict` asks only about a ranking.
unfoldable pub follow_verdict : World → Job → JobContext → TargetInputs → Verdict → Run JobState
unfolding set_chosen moves ask_thin ask_review fail_or_reschedule
follow_verdict w j c inputs (auto chosen thin) = do
  set_chosen j chosen.candidate.info_hash
  moves w j JobState.add (codes "chose a release") default
follow_verdict w j c inputs (Matching.ask (thin_seeds seeders) (best ∷ rest)) =
    ask_thin w j c inputs seeders best
follow_verdict w j c inputs (Matching.ask reason ranked) = ask_review w j c inputs reason ranked
follow_verdict w j c inputs (not_found rejections) = fail_or_reschedule w j (codes "nothing usable")

unfoldable pub choose_ranked :
    World
    → Job
    → JobContext
    → TargetInputs
    → Rules
    → List Ranked × List (Text × Rejection)
    → Run JobState
unfolding store_scores all_batches ask_batch follow_verdict decide_verdict
choose_ranked w j c inputs rules ([], rejected) =
    follow_verdict w j c inputs (decide_verdict [] rejected inputs.auto rules w.config.scoring)
choose_ranked w j c inputs rules (best ∷ rest, rejected) = do
  writes (store_scores w (best ∷ rest))
  if not inputs.fully_aired && all_batches (best ∷ rest)
      then ask_batch w j c best
      else follow_verdict w j c inputs
          (decide_verdict (best ∷ rest) rejected inputs.auto rules w.config.scoring)

unfoldable pub choose_from :
    World → Job → JobContext → TargetInputs → Rules → List Candidate → Run JobState
unfolding fail_or_reschedule choose_ranked rank score_target
choose_from w j c inputs rules [] =
    fail_or_reschedule w j (codes "no candidates left to choose from")
choose_from w j c inputs rules (x ∷ xs) =
    choose_ranked w j c inputs rules
      (rank w.scale (score_target inputs (some c.number)) rules w.config.scoring w.now (x ∷ xs))

unfoldable pub choose_step : World → Job → Run JobState
unfolding context for_show load_inputs candidate_rows choose_from
choose_step w j = do
  c ← context j
  rules ← (λ db. (for_show w.json c.mal_id db.rules, db))
  inputs ← (λ db. (load_inputs w.regex w.chars c.mal_id db, db))
  rows ← reads (candidate_rows w.parse_release c.mal_id)
  choose_from w j c inputs rules rows
