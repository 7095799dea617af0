-- ===== src/Library/Formatting/Laws.antt =====
-- What a sanitized name is free of (core/crates/genrl-core/src/library/formatting.rs).
use mathlib.Core.List.{reverse}
use genrl_downloader.Prelude.{
  ℕ, zero, suc, ◌≤◌, ◌<◌, ◌≢◌, ◌⊎◌, Bool, false, ◌≡◌, refl, inl, inr, [], ◌∷◌, length, All,
  Bool-cases, arith,
}
use genrl_downloader.Text.{Text, codes, trim}
use genrl_downloader.Text.Laws.{reverse_aux-All, trim-All}
use genrl_downloader.Filename.Normalize.{is_empty}
use genrl_downloader.Library.Formatting.{
  is_separator, is_control, is_bidi, replaced, dot_or_dash, drop_while, trim_matches, take, trimmed,
  sanitize_component,
}

-- The separators, and the other characters that a file name may not have.
abbrev forbidden : Text
forbidden = 0 ∷ codes "/\\:*?\"<>|"

-- The marks, embeddings, overrides and isolates that turn the direction of writing: U+200E, U+200F,
-- U+202A to U+202E and U+2066 to U+2069.
abbrev turning : Text
turning = 8206 ∷ 8207 ∷ 8234 ∷ 8235 ∷ 8236 ∷ 8237 ∷ 8238 ∷ 8294 ∷ 8295 ∷ 8296 ∷ 8297 ∷ []

-- A character that a name may have: none of these, and no control character.
abbrev pub IsSafe : ℕ → Type 0
IsSafe c =
    All (λ f. c ≢ f) forbidden × ((32 ≤ c) × ((c < 127) ⊎ (159 < c))) × All (λ f. c ≢ f) turning

kept-IsSafe : (c : ℕ) → is_separator c ≡ false → is_control c ≡ false → is_bidi c ≡ false → IsSafe c
unfolding is_separator is_control is_bidi
kept-IsSafe c s k b = (ground arith, ground arith, ground arith)

dash_ok : IsSafe 45
dash_ok = (ground arith, ground arith, ground arith)

replaced-IsSafe : (s : Text) → All IsSafe (replaced s)
unfolding replaced
replaced-IsSafe [] = tt
replaced-IsSafe (c ∷ cs) = elim (Bool-cases (is_separator c)) [
  | inl out ↦ rw (out) (dash_ok, replaced-IsSafe cs)
  | inr kept ↦ elim (Bool-cases (is_control c)) [
    | inl out ↦ rw (kept, out) (replaced-IsSafe cs)
    | inr shown ↦ elim (Bool-cases (is_bidi c)) [
      | inl out ↦ rw (kept, shown, out) (replaced-IsSafe cs)
      | inr plain ↦ rw (kept, shown, plain) (kept-IsSafe c kept shown plain, replaced-IsSafe cs)
    ]
  ]
]

module _ (P : ℕ → Type 0) where
  drop_while-All : (p : ℕ → Bool) (s : Text) → All P s → All P (drop_while p s)
  unfolding drop_while
  drop_while-All p [] h = h
  drop_while-All p (c ∷ cs) h = elim (Bool-cases (p c)) [
    | inl out ↦ rw (out) (drop_while-All p cs h.1)
    | inr kept ↦ rw (kept) h
  ]

  trim_matches-All : (p : ℕ → Bool) (s : Text) → All P s → All P (trim_matches p s)
  unfolding trim_matches
  trim_matches-All p s h =
      let first = drop_while-All p s h in
      let last =
        drop_while-All p (reverse (drop_while p s))
          (reverse_aux-All P (drop_while p s) [] first tt) in
      reverse_aux-All P (drop_while p (reverse (drop_while p s))) [] last tt

  take-All : (n : ℕ) (s : Text) → All P s → All P (take n s)
  unfolding take
  take-All zero s h = tt
  take-All (suc n) [] h = tt
  take-All (suc n) (c ∷ cs) h = (h.0, take-All n cs h.1)

trimmed-IsSafe : (name : Text) → All IsSafe (trimmed name)
unfolding trimmed
trimmed-IsSafe name =
    let shown = trim-All IsSafe (replaced name) (replaced-IsSafe name) in
    trim-All IsSafe (trim_matches dot_or_dash (trim (replaced name)))
      (trim_matches-All IsSafe dot_or_dash (trim (replaced name)) shown)

length-take : (n : ℕ) (s : Text) → length (take n s) ≤ n
unfolding take
length-take zero s = omega arith
length-take (suc n) [] = omega arith
length-take (suc n) (c ∷ s) = omega (arith, length-take n s)

take-is_empty : (n : ℕ) (s : Text) → is_empty s ≡ false → is_empty (take (suc n) s) ≡ false
unfolding take is_empty
take-is_empty n [] h = h
take-is_empty n (c ∷ s) h = h

show-IsSafe : All IsSafe (codes "Show")
show-IsSafe = ground arith

-- A sanitized name is not empty and has at most 120 characters. None of them is NUL, a slash or one
-- of \ : * ? " < > |, a control character (U+0000 to U+001F, U+007F to U+009F), or one of the marks
-- U+200E, U+200F, U+202A to U+202E and U+2066 to U+2069 that turn the direction of writing.
pub sanitize_component-IsSafe :
    (name : Text)
    → (is_empty (sanitize_component name) ≡ false)
      × (length (sanitize_component name) ≤ 120)
      × All IsSafe (sanitize_component name)
unfolding sanitize_component is_empty
sanitize_component-IsSafe name = elim (Bool-cases (is_empty (trimmed name))) [
  | inl blank ↦ rw (blank, sanitize_component) (refl, omega arith, show-IsSafe)
  | inr full ↦
      rw (full, sanitize_component)
        (
          take-is_empty 119 (trimmed name) full,
          length-take 120 (trimmed name),
          take-All IsSafe 120 (trimmed name) (trimmed-IsSafe name),
        )
]
