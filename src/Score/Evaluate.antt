-- ===== src/Score/Evaluate.antt =====
-- `evaluate` and the ranking of all candidates (core/crates/genrl-core/src/score/evaluate.rs and
-- core/crates/genrl-core/src/matching/decide.rs, `rank`). The rejections come with the raw name.
use genrl_downloader.Prelude.{ℕ, zero, suc, none, some, List, [], ◌∷◌, if◌then◌else◌, ◌⊎◌, inl, inr}
use genrl_downloader.Text.{Text}
use genrl_downloader.Rules.{Rules}
use genrl_downloader.Score.{Candidate, Target, Rejection, Settings, Scored, less, total}
use genrl_downloader.Score.Filters.{rejection, best_ratio}
use genrl_downloader.Score.Signal.{Scale, signal, ranking}

unfoldable pub scored : Scale → Candidate → Target → Rules → Settings → ℕ → Scored
unfolding best_ratio signal ranking
scored scale c t rules s now =
    let own = best_ratio t.names c.release.normalized_title in
    record {
      signal = signal c t rules s own.0;
      ranking = ranking scale c t rules now;
      title_ratio = own.0;
      matched_name = own.1;
    }

unfoldable pub evaluate : Scale → Candidate → Target → Rules → Settings → ℕ → Rejection ⊎ Scored
unfolding rejection scored
evaluate scale c t rules s now = elim (rejection c t rules s) [
  | some r ↦ inl r
  | none ↦ inr (scored scale c t rules s now)
]

pub record Ranked : Type 0 where
  pub candidate : Candidate
  pub scored : Scored

-- A stable sort by the total, highest first.
unfoldable pub insert_best : Ranked → List Ranked → List Ranked
unfolding less total
insert_best r [] = r ∷ []
insert_best r (x ∷ xs) =
    let rest = insert_best r xs in
    if less (total r.scored) (total x.scored) then x ∷ rest else r ∷ x ∷ xs

unfoldable pub truncate : ℕ → List Ranked → List Ranked
truncate zero rs = []
truncate (suc n) [] = []
truncate (suc n) (r ∷ rs) = r ∷ truncate n rs

-- Where a candidate goes.
unfoldable pub placed :
    Candidate
    → Rejection ⊎ Scored
    → List Ranked × List (Text × Rejection)
    → List Ranked × List (Text × Rejection)
unfolding insert_best
placed c (inl r) rest = (rest.0, (c.release.raw, r) ∷ rest.1)
placed c (inr x) rest = (insert_best (record { candidate = c; scored = x }) rest.0, rest.1)

unfoldable pub passing :
    Scale → Target → Rules → Settings → ℕ → List Candidate → List Ranked × List (Text × Rejection)
unfolding placed
passing scale t rules s now [] = ([], [])
passing scale t rules s now (c ∷ cs) =
    placed c (evaluate scale c t rules s now) (passing scale t rules s now cs)

unfoldable pub rank :
    Scale → Target → Rules → Settings → ℕ → List Candidate → List Ranked × List (Text × Rejection)
unfolding passing truncate
rank scale t rules s now cs = let all = passing scale t rules s now cs in (truncate 20 all.0, all.1)
