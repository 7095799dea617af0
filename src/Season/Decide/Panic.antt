-- ===== src/Season/Decide/Panic.antt =====
-- Where the decision panics.
use genrl_downloader.Prelude.{
  ℕ, zero, suc, ◌+◌, ◌-◌, ◌/◌, ◌<◌, ◌≡◌, subst, ◌↔◌, inl, inr, max, false, none, some, [], ◌∷◌,
  length, arith, Option-cases,
}
use genrl_downloader.Season.{SeasonEntry, SeasonChain, Wanted, find_entry, first, episodes_before}
use genrl_downloader.Season.Decide.{
  Release, offset_match, accepted, decide_feature, decide_beyond, decide_number, decide_episode,
  decide_season, other_marker, decide,
}
use genrl_downloader.Season.Decide.Laws.{Names}

first-none_iff : (n : ℕ) (es : SeasonChain) → (first n es ≡ none) ↔ (length es < n)
unfolding first
first-none_iff zero es = ground arith
first-none_iff (suc n) [] = ground arith
first-none_iff (suc n) (e ∷ es) = elim (Option-cases (first n es)) [
  | inl cut ↦ ground (arith, first-none_iff n es, cut)
  | inr (xs, there) ↦ ground (arith, first-none_iff n es, there)
]

-- A number beyond the wanted one and beyond the entry's own count, which neither the wanted number
-- nor the offset explains, where the season is more than one past the end of the chain.
abbrev pub Overruns : SeasonChain → SeasonEntry → ℕ → Release → ℕ → Type 0
Overruns chain e season release w =
    (found : ℕ) × (total : ℕ) × (release.episode ≡ some found)
    × (accepted w e found ≡ false)
    × (w < found)
    × (e.total_episodes ≡ some total)
    × (total < found / 10)
    × (length chain + 1 < season)

number-panics_iff :
    (chain : SeasonChain) (e : SeasonEntry) (season w found : ℕ)
    → (decide_number chain e season w found ≡ none) ↔ (
        (accepted w e found ≡ false)
        × (w < found)
        × ((total : ℕ) × (e.total_episodes ≡ some total)
            × (total < found / 10)
            × (length chain + 1 < season)))
unfolding decide_number decide_beyond episodes_before accepted offset_match
number-panics_iff chain e season w found = ground (arith, first-none_iff (max season 1 - 1) chain)

season-panics_iff :
    (chain : SeasonChain) (e : SeasonEntry) (wanted : Wanted) (release : Release)
    → (decide_season chain e wanted release ≡ none)
      ↔ ((w : ℕ) × (wanted.episode ≡ some w) × Overruns chain e wanted.season release w)
unfolding decide_season decide_feature decide_episode
season-panics_iff chain e wanted release = elim (Option-cases wanted.episode) [
  | inl feature ↦ ground (arith, feature)
  | inr (w, wants) ↦ elim (Option-cases release.episode) [
    | inl nothing ↦ ground (arith, nothing, wants)
    | inr (found, eq) ↦
        let (sound, complete) = number-panics_iff chain e wanted.season w found in
        (
          λ h.
              let (off, gt, (total, known, over, past)) = sound (ground (arith, h, wants, eq)) in
              (w, wants, (found, total, eq, off, gt, known, over, past)),
          λ (w', wants', (found', total, eq', off, gt, known, over, past)).
              let w_same : w' ≡ w = ground (arith, wants, wants') in
              let same : found' ≡ found = ground (arith, eq, eq') in
              let there : decide_number chain e wanted.season w found ≡ none = complete (
                ground (arith, off, w_same, same),
                ground (arith, gt, w_same, same),
                (total, known, ground (arith, over, same), past),
              ) in
              ground (arith, wants, eq, there),
        )
  ]
]

-- `decide` panics exactly when the entry is in the chain, the release names the wanted season or
-- none, an episode is wanted, and the number found overruns: it is beyond the wanted one and the
-- entry's own count, no offset explains it, and the wanted season is more than one past the end of
-- the chain.
pub decide_panics_iff :
    (chain : SeasonChain) (wanted : Wanted) (release : Release)
    → (decide chain wanted release ≡ none) ↔ (
        Names release wanted.season
        × ((e : SeasonEntry) × (w : ℕ) × (find_entry chain wanted.mal_id ≡ some e)
            × (wanted.episode ≡ some w)
            × Overruns chain e wanted.season release w))
unfolding decide other_marker
decide_panics_iff chain wanted release = elim (Option-cases (find_entry chain wanted.mal_id)) [
  | inl missing ↦ ground (arith, missing)
  | inr (e, found) ↦
      let (sound, complete) = season-panics_iff chain e wanted release in
      (
        λ h.
            let names : Names release wanted.season = ground (arith, found, h) in
            let (w, wants, over) = sound (ground (arith, found, h)) in
            (names, (e, w, found, wants, over)),
        λ (names, (e', w, found', wants, over)).
            let same : e' ≡ e = ground (arith, found, found') in
            let there =
              complete
                (w, wants, subst (λ x. Overruns chain x wanted.season release w) same over) in
            ground (arith, found, names, there),
      )
]
