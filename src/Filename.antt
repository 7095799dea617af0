-- ===== src/Filename.antt =====
-- Season markers in a title (core/crates/genrl-core/src/filename/release.rs). The `regex` crate is
-- an argument: what a pattern does to a text.
pub mod Fuzzy
pub mod Normalize
mod Tests
use genrl_downloader.Prelude.{
  ℕ, ◌+◌, ◌-◌, ◌*◌, Bool, not, ◌&&◌, Option, none, some, [], ◌∷◌, leb, if◌then◌else◌,
}
use genrl_downloader.Text.{Text, codes, match_text}

pub record Regex : Type 0 where
  -- the first group of the first match
  pub captures : Text → Text → Option Text
  pub is_match : Text → Text → Bool

-- `str::parse`, after a first digit has set `n`; only the ASCII digits are numbers.
digits : ℕ → Text → Option ℕ
digits n [] = some n
digits n (c ∷ cs) =
    let rest = digits (n * 10 + (c - 48)) cs in if leb 48 c && leb c 57 then rest else none

pub parse_number : Text → Option ℕ
unfolding digits
parse_number [] = none
parse_number (c ∷ cs) = digits 0 (c ∷ cs)

abbrev ordinal_season : Text
ordinal_season = codes "(?i)\\b(\\d{1,2})(?:st|nd|rd|th)\\s*season\\b"

abbrev season_number : Text
season_number = codes "(?i)\\bSEASON\\s*(\\d{1,2})\\b"

abbrev short_season : Text
short_season = codes "(?i)\\bS(\\d{1,2})\\b"

abbrev roman_season : Text
roman_season = codes "\\b(II|III|IV|VI|VII|VIII|IX|X)\\b"

roman : Text → Option ℕ
unfolding match_text
roman =
    match_text
      ((codes "II", some 2)
        ∷ (codes "III", some 3)
        ∷ (codes "IV", some 4)
        ∷ (codes "VI", some 6)
        ∷ (codes "VII", some 7)
        ∷ (codes "VIII", some 8)
        ∷ (codes "IX", some 9)
        ∷ (codes "X", some 10)
        ∷ [])
      none

-- The season that a title names.
unfoldable pub extract_season_from_title : Regex → Text → Option ℕ
unfolding roman parse_number
extract_season_from_title re title = elim (re.captures ordinal_season title) [
  | some n ↦ parse_number n
  | none ↦ elim (re.captures season_number title) [
    | some n ↦ parse_number n
    | none ↦ elim (re.captures short_season title) [
      | some n ↦ parse_number n
      | none ↦ elim (re.captures roman_season title) [ some n ↦ roman n | none ↦ none ]
    ]
  ]
]

-- Whether a title is a part of a season without a season of its own.
unfoldable pub is_cour_or_part_split : Regex → Text → Bool
is_cour_or_part_split re title =
    re.is_match (codes "(?i)\\b(?:cour|part)\\s*\\d{1,2}\\b") title
    && not (re.is_match (codes "(?i)\\b\\d{1,2}(?:st|nd|rd|th)\\s*season\\b") title)
    && not (re.is_match (codes "(?i)\\bseason\\s*\\d{1,2}\\b") title)
    && not (re.is_match (codes "(?i)\\bS\\d{1,2}\\b") title)
