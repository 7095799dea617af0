-- ===== src/Season/Decide/Laws.antt =====
-- Which releases are downloaded.
use genrl_downloader.Prelude.{
  ℕ, ◌+◌, ◌*◌, ◌/◌, ◌<◌, ◌≡◌, subst, ◌↔◌, ◌⊎◌, inl, inr, true, none, some, arith, Option-cases,
}
use genrl_downloader.Season.{
  ℤ, pos, negsuc, SeasonEntry, SeasonChain, Wanted, find_entry, episodes_before,
}
use genrl_downloader.Season.Decide.{
  Release, download, offset_match, accepted, decide_feature, map_absolute, decide_beyond,
  decide_number, decide_episode, decide_season, other_marker, decide,
}

-- The release names the season or none.
abbrev pub Names : Release → ℕ → Type 0
Names release season = (release.season ≡ none) ⊎ (release.season ≡ some season)

-- `found` is `w` moved by the offset.
abbrev pub Shifted : ℕ → ℤ → ℕ → Type 0
Shifted w (pos n) found = found ≡ w + n * 10
Shifted w (negsuc n) found = w ≡ found + (n + 1) * 10

-- `found` is beyond the entry's own count, and its whole part is that of `w` counted on from the
-- seasons before.
abbrev pub Absolute : SeasonChain → SeasonEntry → ℕ → ℕ → ℕ → Type 0
Absolute chain e season w found =
    (total : ℕ) × (cumulative : ℕ) × (w < found)
    × (e.total_episodes ≡ some total)
    × (total < found / 10)
    × (episodes_before chain season ≡ some (some cumulative))
    × (found / 10 ≡ cumulative + w / 10)

abbrev pub Numbered : SeasonChain → SeasonEntry → ℕ → ℕ → ℕ → Type 0
Numbered chain e season w found =
    (found ≡ w) ⊎ (Shifted w e.episode_offset found ⊎ Absolute chain e season w found)

-- What the release delivers is the wanted episode.
abbrev pub Delivers : SeasonChain → SeasonEntry → Wanted → Release → ℕ → Type 0
Delivers chain e wanted release episode =
    ((wanted.episode ≡ none)
      × ((release.episode ≡ none) ⊎ (release.episode ≡ some 10))
      × (episode ≡ 10))
    ⊎ ((wanted.episode ≡ some episode)
        × (((release.episode ≡ none) × (release.is_batch ≡ true) × (e.fully_aired ≡ true))
            ⊎ ((found : ℕ) × (release.episode ≡ some found)
                × Numbered chain e wanted.season episode found)))

accepted_iff :
    (w : ℕ) (e : SeasonEntry) (found : ℕ)
    → (accepted w e found ≡ true) ↔ ((found ≡ w) ⊎ Shifted w e.episode_offset found)
unfolding accepted offset_match
accepted_iff w e found = ground arith

number_iff :
    (chain : SeasonChain) (e : SeasonEntry) (season w found s ep : ℕ)
    → (decide_number chain e season w found ≡ some (download s ep))
      ↔ ((s ≡ season) × (ep ≡ w) × Numbered chain e season w found)
unfolding decide_number decide_beyond map_absolute
number_iff chain e season w found s ep = ground (arith, accepted_iff w e found)

episode_iff :
    (chain : SeasonChain) (e : SeasonEntry) (season w : ℕ) (release : Release) (s ep : ℕ)
    → (decide_episode chain e season w release release.episode ≡ some (download s ep)) ↔ (
        (s ≡ season)
        × (ep ≡ w)
        × (((release.episode ≡ none) × (release.is_batch ≡ true) × (e.fully_aired ≡ true))
            ⊎ ((found : ℕ) × (release.episode ≡ some found) × Numbered chain e season w found)))
unfolding decide_episode
episode_iff chain e season w release s ep = elim (Option-cases release.episode) [
  | inl nothing ↦ ground (arith, nothing)
  | inr (found, eq) ↦
      let (sound, complete) = number_iff chain e season w found s ep in
      (
        λ h. let (p, q, n) = sound (ground (arith, h)) in (p, q, inr (found, eq, n)),
        λ (p, q, r). elim r [
          | inl batch ↦ absurd (ground (arith, eq, batch))
          | inr (found', eq', n) ↦
              let same : found' ≡ found = ground (arith, eq, eq') in
              rw eq (complete (p, q, subst (Numbered chain e season w) same n))
        ],
      )
]

season_iff :
    (chain : SeasonChain) (e : SeasonEntry) (wanted : Wanted) (release : Release) (s ep : ℕ)
    → (decide_season chain e wanted release ≡ some (download s ep))
      ↔ ((s ≡ wanted.season) × Delivers chain e wanted release ep)
unfolding decide_season decide_feature
season_iff chain e wanted release s ep = elim (Option-cases wanted.episode) [
  | inl feature ↦ ground (arith, feature)
  | inr (w, eq) ↦
      let (sound, complete) = episode_iff chain e wanted.season w release s ep in
      (λ h. ground (arith, sound, h, eq), λ (p, r). ground (arith, complete, p, r, eq))
]

-- A release is downloaded exactly when its show's entry is in the chain, it names the wanted season
-- or none, and it delivers the wanted episode: the feature itself, a batch of a show that has
-- finished airing, or a number that is the wanted one, the wanted one moved by the entry's offset, or
-- one beyond the wanted one and the entry's count whose whole part is that of the wanted one counted
-- on from the seasons before: its fraction is dropped, so that a release numbered 16.5 passes for
-- episode 4 after a season of 12. The decision then names the wanted season and the wanted episode.
pub decide_download_iff :
    (chain : SeasonChain) (wanted : Wanted) (release : Release) (s ep : ℕ)
    → (decide chain wanted release ≡ some (download s ep)) ↔ (
        (s ≡ wanted.season)
        × Names release wanted.season
        × ((e : SeasonEntry) × (find_entry chain wanted.mal_id ≡ some e)
            × Delivers chain e wanted release ep))
unfolding decide other_marker
decide_download_iff chain wanted release s ep =
    elim (Option-cases (find_entry chain wanted.mal_id)) [
      | inl missing ↦ ground (arith, missing)
      | inr (e, found) ↦
          let (sound, complete) = season_iff chain e wanted release s ep in
          (
            λ h.
                let names : Names release wanted.season = ground (arith, found, h) in
                let (p, d) = sound (ground (arith, found, h)) in (p, names, (e, found, d)),
            λ (p, names, (e', found', d)).
                let same : e' ≡ e = ground (arith, found, found') in
                let there = complete (p, subst (λ x. Delivers chain x wanted release ep) same d) in
                ground (arith, found, names, there),
          )
    ]
