-- ===== src/Matching.antt =====
-- The verdict on the ranked candidates (core/crates/genrl-core/src/matching/decide.rs,
-- `decide_verdict`, and types.rs). Why the user is asked is kept without its numbers.
pub mod Laws
mod Tests
use genrl_downloader.Prelude.{
  ℕ, ◌+◌, Bool, true, false, not, ◌&&◌, ◌||◌, Option, none, some, List, [], ◌∷◌, ltb, if◌then◌else◌,
}
use genrl_downloader.Text.{Text, text_eq, folded}
use genrl_downloader.Filename.Normalize.{is_empty}
use genrl_downloader.Rules.{Rules}
use genrl_downloader.Score.{
  SeedHealth, dead, thin, healthy, seed_health, Rejection, no_seeders, Settings, Points, less,
}
use genrl_downloader.Score.Evaluate.{Ranked}

pub data AskReason : Type 0 where
  no_confident_match too_close : AskReason
  thin_seeds : ℕ → AskReason

pub data Verdict : Type 0 where
  -- chosen, thin
  auto : Ranked → Bool → Verdict
  ask : AskReason → List Ranked → Verdict
  not_found : List (Text × Rejection) → Verdict

-- The difference of two signals is below the margin.
unfoldable pub is_close : Settings → Points → Points → Bool
is_close s best other = ltb (best.gained + other.lost) (s.score_margin + (other.gained + best.lost))

unfoldable pub below_threshold : Settings → Points → Bool
below_threshold s signal = ltb signal.gained (s.score_threshold + signal.lost)

unfoldable pub tied_with : Settings → Points → List Ranked → List Ranked
unfolding is_close
tied_with s best [] = []
tied_with s best (r ∷ rs) =
    let rest = tied_with s best rs in if is_close s best r.scored.signal then r ∷ rest else rest

unfoldable pub has_group : Text → Ranked → Bool
has_group pref r = elim r.candidate.release.group [
  | none ↦ false
  | some g ↦ text_eq (folded g) pref
]

unfoldable pub find_group : Text → List Ranked → Option Ranked
unfolding has_group
find_group pref [] = none
find_group pref (r ∷ rs) =
    let rest = find_group pref rs in if has_group pref r then some r else rest

-- The first preferred group with a tied candidate.
unfoldable pub preferred_pick : List Text → List Ranked → Option Ranked
unfolding find_group is_empty folded
preferred_pick [] tied = none
preferred_pick (g ∷ gs) tied =
    let rest = preferred_pick gs tied in
    if is_empty (folded g)
    then rest
    else elim (find_group (folded g) tied) [ some r ↦ some r | none ↦ rest ]

-- Whether the runner-up makes the winner unclear.
unfoldable pub contested : Rules → Settings → Ranked → List Ranked → Bool
unfolding is_close
contested rules s best [] = false
contested rules s best (runner ∷ rest) =
    not (
      best.candidate.release.is_batch
      && not runner.candidate.release.is_batch
      && rules.prefer_batch_when_finished)
    && is_close s best.scored.signal runner.scored.signal

unfoldable pub by_health :
    SeedHealth → Bool → Ranked → List Ranked → List (Text × Rejection) → Verdict
by_health dead on_list best ranked rejected =
    not_found ((best.candidate.release.raw, no_seeders) ∷ rejected)
by_health thin false best ranked rejected = ask (thin_seeds best.candidate.seeders) ranked
by_health thin true best ranked rejected = auto best true
by_health healthy on_list best ranked rejected = auto best false

unfoldable pub winner : Rules → Settings → Ranked → List Ranked → Option Ranked
unfolding contested preferred_pick tied_with
winner rules s best rest =
    if contested rules s best rest
    then preferred_pick rules.groups (tied_with s best.scored.signal (best ∷ rest))
    else some best

unfoldable pub decide_verdict :
    List Ranked → List (Text × Rejection) → Bool → Rules → Settings → Verdict
unfolding below_threshold winner by_health seed_health
decide_verdict [] rejected on_list rules s = not_found rejected
decide_verdict (best ∷ rest) rejected on_list rules s =
    if below_threshold s best.scored.signal
    then ask no_confident_match (best ∷ rest)
    else elim (winner rules s best rest) [
      | none ↦ ask too_close (best ∷ rest)
      | some picked ↦
          by_health (seed_health picked.candidate.seeders rules.seed_auto_threshold) on_list picked
            (best ∷ rest) rejected
    ]
