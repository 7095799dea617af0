-- ===== src/Matching/Laws.antt =====
-- When a candidate is downloaded without asking (core/crates/genrl-core/src/matching/decide.rs).
use genrl_downloader.Prelude.{
  ℕ, ◌+◌, ◌≤◌, ◌<◌, Bool, true, false, ◌≡◌, ◌↔◌, refl, sym, ap, subst, ◌∙◌, inl, inr, ◌⊎◌, Option,
  none, some, List, [], ◌∷◌, Bool-cases, Option-cases, arith,
}
use genrl_downloader.Text.{Text, folded}
use genrl_downloader.Filename.Normalize.{is_empty}
use genrl_downloader.Rules.{Rules}
use genrl_downloader.Score.{
  SeedHealth, dead, thin, healthy, seed_health, Rejection, Settings, Points,
}
use genrl_downloader.Score.Evaluate.{Ranked}
use genrl_downloader.Matching.{
  Verdict, auto, is_close, below_threshold, tied_with, has_group, find_group, preferred_pick,
  contested, by_health, winner, decide_verdict,
}

-- Membership in the ranking.
pub data Among (r : Ranked) : List Ranked → Type 0 where
  here : {rs : List Ranked} → Among r (r ∷ rs)
  there : {x : Ranked} {rs : List Ranked} → Among r rs → Among r (x ∷ rs)

find_group-Among :
    (pref : Text) (rs : List Ranked) {r : Ranked} → find_group pref rs ≡ some r → Among r rs
unfolding find_group
find_group-Among pref [] e = absurd (ground (arith, e))
find_group-Among pref (x ∷ rs) {r} e = elim (Bool-cases (has_group pref x)) [
  | inl hit ↦ subst (λ y. Among r (y ∷ rs)) (ground (arith, e, hit)) here
  | inr miss ↦ there (find_group-Among pref rs {r = r} (ground (arith, e, miss)))
]

pick-Among :
    (groups : List Text) (tied : List Ranked) {r : Ranked}
    → preferred_pick groups tied ≡ some r
    → Among r tied
unfolding preferred_pick
pick-Among [] tied e = absurd (ground (arith, e))
pick-Among (g ∷ gs) tied {r} e = elim (Bool-cases (is_empty (folded g))) [
  | inl blank ↦ pick-Among gs tied {r = r} (ground (arith, e, blank))
  | inr full ↦ elim (Option-cases (find_group (folded g) tied)) [
    | inl miss ↦ pick-Among gs tied {r = r} (ground (arith, e, full, miss))
    | inr (x, hit) ↦ find_group-Among (folded g) tied {r = r} (hit ∙ ground (arith, e, full, hit))
  ]
]

kept_Among :
    (s : Settings) (best : Points) (x : Ranked) (rs : List Ranked) {r : Ranked}
    → is_close s best x.scored.signal ≡ true
    → (Among r (tied_with s best rs) → Among r rs × (is_close s best r.scored.signal ≡ true))
    → Among r (x ∷ tied_with s best rs)
    → Among r (x ∷ rs) × (is_close s best r.scored.signal ≡ true)
kept_Among s best x rs near ih here = (here, near)
kept_Among s best x rs near ih (there h) = let (among, close) = ih h in (there among, close)

tied-Among :
    (s : Settings) (best : Points) (rs : List Ranked) {r : Ranked}
    → Among r (tied_with s best rs)
    → Among r rs × (is_close s best r.scored.signal ≡ true)
unfolding tied_with
tied-Among s best [] h = elim h [ ]
tied-Among s best (x ∷ rs) {r} h = elim (Bool-cases (is_close s best x.scored.signal)) [
  | inl near ↦
      kept_Among s best x rs near (tied-Among s best rs {r = r})
        (subst (Among r) (ground (arith, near)) h)
  | inr far ↦
      let (among, near) = tied-Among s best rs {r = r} (subst (Among r) (ground (arith, far)) h) in
      (there among, near)
]

-- The health of the seeds of `picked` lets it through, with a flag when they are few.
abbrev AutoFrom : Rules → Bool → Ranked → Ranked → Bool → Type 0
AutoFrom rules on_list picked chosen flagged =
    (chosen ≡ picked)
    × (0 < chosen.candidate.seeders)
    × ((flagged ≡ true) ↔ (chosen.candidate.seeders < rules.seed_auto_threshold))
    × (flagged ≡ true → on_list ≡ true)

-- The two constructors' arguments that `auto` has.
chosen_of : Ranked → Verdict → Ranked
chosen_of other (auto r flagged) = r
chosen_of other _ = other

by_health_auto :
    (h : SeedHealth) (on_list : Bool) (picked : Ranked) (ranked : List Ranked)
    (rejected : List (Text × Rejection)) (chosen : Ranked) (flagged : Bool)
    → by_health h on_list picked ranked rejected ≡ auto chosen flagged
    → (chosen ≡ picked)
      × (((h ≡ thin) × (flagged ≡ true) × (on_list ≡ true)) ⊎ ((h ≡ healthy) × (flagged ≡ false)))
unfolding by_health chosen_of
by_health_auto dead on_list picked ranked rejected chosen flagged e = absurd (ground (arith, e))
by_health_auto thin false picked ranked rejected chosen flagged e = absurd (ground (arith, e))
by_health_auto thin true picked ranked rejected chosen flagged e =
    (sym (ap (chosen_of picked) e), inl (refl, ground (arith, e), refl))
by_health_auto healthy on_list picked ranked rejected chosen flagged e =
    (sym (ap (chosen_of picked) e), inr (refl, ground (arith, e)))

thin_seeded : (n t : ℕ) → seed_health n t ≡ thin → (0 < n) × (n < t)
unfolding seed_health
thin_seeded n t e = ground (arith, e)

healthy_seeded : (n t : ℕ) → seed_health n t ≡ healthy → (0 < n) × (t ≤ n)
unfolding seed_health
healthy_seeded n t e = ground (arith, e)

health_auto :
    (rules : Rules) (on_list : Bool) (picked : Ranked) (ranked : List Ranked)
    (rejected : List (Text × Rejection)) (chosen : Ranked) (flagged : Bool)
    → by_health
        (seed_health picked.candidate.seeders rules.seed_auto_threshold)
        on_list
        picked
        ranked
        rejected
      ≡ auto chosen flagged
    → AutoFrom rules on_list picked chosen flagged
health_auto rules on_list picked ranked rejected chosen flagged e =
    let n = picked.candidate.seeders in
    let t = rules.seed_auto_threshold in
    let (same, way) =
      by_health_auto (seed_health n t) on_list picked ranked rejected chosen flagged e in
    let count : chosen.candidate.seeders ≡ n = ap (λ r. r.candidate.seeders) same in
    elim way [
      | inl (is_thin, yes_flag, listed) ↦
          let (some_seed, few) = thin_seeded n t is_thin in
          (
            same,
            omega (arith, count, some_seed),
            ((λ _. omega (arith, count, few)), λ _. yes_flag),
            λ _. listed,
          )
      | inr (is_healthy, no_flag) ↦
          let (some_seed, enough) = healthy_seeded n t is_healthy in
          (
            same,
            omega (arith, count, some_seed),
            (
              (λ f. absurd (ground (arith, f, no_flag))),
              λ k. absurd (omega (arith, count, enough, k)),
            ),
            λ f. absurd (ground (arith, f, no_flag)),
          )
    ]

value_of : Ranked → Option Ranked → Ranked
value_of other none = other
value_of other (some r) = r

only_one : (a b : Ranked) → some a ≡ some b → a ≡ b
unfolding value_of
only_one a b e = ap (value_of a) e

-- The winner is the best, or tied with it.
winner_from :
    (rules : Rules) (s : Settings) (best : Ranked) (rest : List Ranked) (picked : Ranked)
    → winner rules s best rest ≡ some picked
    → Among picked (best ∷ rest)
      × ((picked ≡ best) ⊎ (is_close s best.scored.signal picked.scored.signal ≡ true))
unfolding winner
winner_from rules s best rest picked e = elim (Bool-cases (contested rules s best rest)) [
  | inl close ↦
      let tied = tied_with s best.scored.signal (best ∷ rest) in
      let (among, near) =
        tied-Among s best.scored.signal (best ∷ rest)
          (pick-Among rules.groups tied {r = picked} (ground (arith, e, close))) in
      (among, inr near)
  | inr clear ↦
      let same : best ≡ picked = only_one best picked (ground (arith, e, clear)) in
      (subst (λ r. Among r (best ∷ rest)) same here, inl (sym same))
]

module _ (s : Settings) (best : Ranked) (rest : List Ranked) (rejected : List (Text × Rejection))
    (on_list : Bool) (rules : Rules) where
  asked :
      (chosen : Ranked) (flagged : Bool)
      → below_threshold s best.scored.signal ≡ true
      → decide_verdict (best ∷ rest) rejected on_list rules s ≡ auto chosen flagged
      → ⊥
  unfolding decide_verdict
  asked chosen flagged low e = ground (arith, low, e)

  tied_out :
      (chosen : Ranked) (flagged : Bool)
      → below_threshold s best.scored.signal ≡ false
      → winner rules s best rest ≡ none
      → decide_verdict (best ∷ rest) rejected on_list rules s ≡ auto chosen flagged
      → ⊥
  unfolding decide_verdict
  tied_out chosen flagged high nobody e = ground (arith, high, nobody, e)

  healthy_verdict :
      (picked : Ranked)
      → below_threshold s best.scored.signal ≡ false
      → winner rules s best rest ≡ some picked
      → decide_verdict (best ∷ rest) rejected on_list rules s
        ≡ by_health
            (seed_health picked.candidate.seeders rules.seed_auto_threshold)
            on_list
            picked
            (best ∷ rest)
            rejected
  unfolding decide_verdict
  healthy_verdict picked high won = ground (arith, high, won)

threshold_met :
    (s : Settings) (p : Points)
    → below_threshold s p ≡ false
    → s.score_threshold + p.lost ≤ p.gained
unfolding below_threshold
threshold_met s p h = ground (arith, h)

-- A candidate is downloaded without asking only where the best one's signal reaches the score
-- threshold; the one chosen is the best, or one whose signal is less than the margin below the
-- best's; it is on the ranking and has seeders. It is flagged as thin exactly when it has fewer
-- seeders than the threshold of the rules, and then only for a show on the automatic list.
pub auto_only_if :
    (best : Ranked) (rest : List Ranked) (rejected : List (Text × Rejection)) (on_list : Bool)
    (rules : Rules) (s : Settings) (chosen : Ranked) (flagged : Bool)
    → decide_verdict (best ∷ rest) rejected on_list rules s ≡ auto chosen flagged
    → (s.score_threshold + best.scored.signal.lost ≤ best.scored.signal.gained)
      × Among chosen (best ∷ rest)
      × ((chosen ≡ best) ⊎ (is_close s best.scored.signal chosen.scored.signal ≡ true))
      × (0 < chosen.candidate.seeders)
      × ((flagged ≡ true) ↔ (chosen.candidate.seeders < rules.seed_auto_threshold))
      × (flagged ≡ true → on_list ≡ true)
auto_only_if best rest rejected on_list rules s chosen flagged e =
    elim (Bool-cases (below_threshold s best.scored.signal)) [
      | inl low ↦ absurd (asked s best rest rejected on_list rules chosen flagged low e)
      | inr high ↦ elim (Option-cases (winner rules s best rest)) [
        | inl nobody ↦
            absurd (tied_out s best rest rejected on_list rules chosen flagged high nobody e)
        | inr (picked, won) ↦
            let (among, near) = winner_from rules s best rest picked won in
            let (same, seeds, flag, listed) =
              health_auto rules on_list picked (best ∷ rest) rejected chosen flagged
                (sym (healthy_verdict s best rest rejected on_list rules picked high won) ∙ e) in
            (
              threshold_met s best.scored.signal high,
              subst (λ r. Among r (best ∷ rest)) (sym same) among,
              subst (λ r. (r ≡ best) ⊎ (is_close s best.scored.signal r.scored.signal ≡ true))
                  (sym same) near,
              seeds,
              flag,
              listed,
            )
      ]
    ]
