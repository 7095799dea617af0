-- ===== src/Season/Number/Laws.antt =====
-- The season number is there for every entry of the chain.
use genrl_downloader.Prelude.{
  ℕ, zero, suc, ◌+◌, ◌-◌, ◌≤◌, ◌<◌, ◌≡◌, refl, ◌↔◌, false, ◌&&◌, Option, none, some, [], ◌∷◌, ltb,
  ◌==◌, length, get_elem?, get_elem?-total, All-get_elem?, arith, All, Option-cases, Bool-cases,
  inl, inr,
}
use genrl_downloader.Filename.{Regex, extract_season_from_title, is_cour_or_part_split}
use genrl_downloader.Season.{SeasonEntry, SeasonChain, position}
use genrl_downloader.Season.Number.{season_from, season_of, count_seasons}

-- A position that was found holds the entry.
pub entry_at :
    (es : SeasonChain) (id n : ℕ)
    → position es id ≡ some n
    → (n < length es) × ((e : SeasonEntry) × (get_elem? es n ≡ some e) × (e.mal_id ≡ id))
unfolding position
entry_at [] id n h = absurd (ground arith)
entry_at (e ∷ es) id zero h = elim (Bool-cases (e.mal_id == id)) [
  | inl same ↦ (omega arith, (e, refl, ground arith))
  | inr differ ↦
      absurd (elim (Option-cases (position es id)) [ inl _ ↦ ground arith | inr _ ↦ ground arith ])
]
entry_at (e ∷ es) id (suc n) h = elim (Bool-cases (e.mal_id == id)) [
  | inl same ↦ absurd (ground arith)
  | inr differ ↦ elim (Option-cases (position es id)) [
    | inl nothing ↦ absurd (ground arith)
    | inr (m, found) ↦ let (lt, rest) = entry_at es id n (ground arith) in (omega (arith, lt), rest)
  ]
]

-- An entry is found at its own position or before it.
pub found_by :
    (es : SeasonChain) (n : ℕ) {e : SeasonEntry}
    → get_elem? es n ≡ some e
    → (m : ℕ) × (position es e.mal_id ≡ some m) × (m ≤ n)
unfolding position
found_by [] n h = absurd (ground arith)
found_by (x ∷ es) zero {e} h = (0, ground arith, omega arith)
found_by (x ∷ es) (suc n) {e} h = elim (Bool-cases (x.mal_id == e.mal_id)) [
  | inl same ↦ (0, ground arith, omega arith)
  | inr differ ↦
      let (m, found, le) = found_by es n {e = e} h in (suc m, ground arith, omega (arith, le))
]

-- Fuel above the entry's position is enough.
season_from_enough :
    (re : Regex) (chain : SeasonChain) (fuel id t : ℕ)
    → position chain id ≡ some t
    → t < fuel
    → (season : ℕ) × (season_from re chain fuel id ≡ some (some season))
unfolding season_from
season_from_enough re chain zero id t p lt = absurd (omega arith)
season_from_enough re chain (suc fuel) id t p lt =
    let (within, (e, at, _)) = entry_at chain id t p in
    elim (Option-cases (extract_season_from_title re e.title)) [
      | inr (season, named) ↦ (season, ground arith)
      | inl unnamed ↦ elim (Bool-cases (ltb 0 t && is_cour_or_part_split re e.title)) [
        | inr alone ↦ (count_seasons re chain 0 t 1, ground arith)
        | inl split ↦
            let (before, there) = get_elem?-total chain (t - 1) (omega (arith, within)) in
            let (m, found, le) = found_by chain (t - 1) {e = before} there in
            let (season, known) =
              season_from_enough re chain fuel before.mal_id m found (ground (arith, le, split)) in
            (season, ground arith)
      ]
    ]

-- The recursion of `season_of` always ends, and it gives a season exactly for the entries of the
-- chain, whatever their titles.
pub season_of_iff :
    (re : Regex) (chain : SeasonChain) (id : ℕ)
    → (r : Option ℕ) × (season_of re chain id ≡ some r) × ((r ≡ none) ↔ (position chain id ≡ none))
unfolding season_of season_from
season_of_iff re chain id = elim (Option-cases (position chain id)) [
  | inl missing ↦ (none, ground arith, ground arith)
  | inr (t, found) ↦
      let (lt, _) = entry_at chain id t found in
      let (season, known) =
        season_from_enough re chain (suc (length chain)) id t found (omega (arith, lt)) in
      (some season, known, ground arith)
]

-- A title that names no season and is no part of one.
abbrev pub IsPlain : Regex → SeasonEntry → Type 0
IsPlain re e =
    (extract_season_from_title re e.title ≡ none) × (is_cour_or_part_split re e.title ≡ false)

count-IsPlain :
    (re : Regex) (es : SeasonChain) (i left season : ℕ)
    → All (IsPlain re) es
    → left ≤ length es
    → count_seasons re es i left season ≡ season + left
unfolding count_seasons
count-IsPlain re [] i left season h le = omega arith
count-IsPlain re (e ∷ es) i zero season h le = omega arith
count-IsPlain re (e ∷ es) i (suc left) season (plain, h) le =
    ground (arith, plain, count-IsPlain re es (suc i) left (season + 1) h (omega arith))

-- Where no title names a season or is a part of one, an entry's season is its place in the chain,
-- counted from 1.
pub plain_chain_season :
    (re : Regex) (chain : SeasonChain) (id n : ℕ)
    → All (IsPlain re) chain
    → position chain id ≡ some n
    → season_of re chain id ≡ some (some (n + 1))
unfolding season_of season_from
plain_chain_season re chain id n h found =
    let (lt, (e, at, _)) = entry_at chain id n found in
    let plain = All-get_elem? (IsPlain re) chain n {a = e} h at in
    ground (arith, plain, count-IsPlain re chain 0 n 1 h (omega (arith, lt)))
