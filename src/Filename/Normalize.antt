-- ===== src/Filename/Normalize.antt =====
-- Titles as matching compares them (core/crates/genrl-core/src/filename/normalize.rs, `normalize`).
-- What the standard library and the regular expression do to a character or a text is an argument.
pub mod Laws
use genrl_downloader.Prelude.{
  ℕ, ◌+◌, ◌-◌, Bool, true, false, not, ◌&&◌, ◌||◌, List, [], ◌∷◌, ◌++◌, map, ◌==◌, ltb, leb,
  if◌then◌else◌,
}
use genrl_downloader.Text.{Text, codes, text_eq, is_whitespace}

pub record Chars : Type 0 where
  pub to_lowercase : Text → Text
  pub is_alphanumeric : ℕ → Bool
  -- `(\d)(?:st|nd|rd|th)\b` replaced by its digit
  pub deordinalled : Text → Text

-- Full-width forms and the ideographic space.
unfoldable pub half_width : ℕ → ℕ
half_width c = if leb 65281 c && leb c 65374 then c - 65281 + 33 else if c == 12288 then b' ' else c

unfoldable pub keep_alphanumeric : (ℕ → Bool) → ℕ → ℕ
keep_alphanumeric is_alphanumeric c = if is_alphanumeric c then c else b' '

unfoldable pub put_before : ℕ → List Text → List Text
put_before c [] = (c ∷ []) ∷ []
put_before c (w ∷ ws) = (c ∷ w) ∷ ws

-- The pieces between white space, the empty ones too.
unfoldable pub split : Text → List Text
unfolding put_before
split [] = [] ∷ []
split (c ∷ cs) = let rest = split cs in if is_whitespace c then [] ∷ rest else put_before c rest

unfoldable pub is_empty : Text → Bool
is_empty [] = true
is_empty (c ∷ cs) = false

unfoldable pub filter : (Text → Bool) → List Text → List Text
filter p [] = []
filter p (w ∷ ws) = let rest = filter p ws in if p w then w ∷ rest else rest

unfoldable pub split_whitespace : Text → List Text
unfolding split filter is_empty
split_whitespace s = filter (λ w. not (is_empty w)) (split s)

unfoldable pub is_dropped : Text → Bool
is_dropped w =
    text_eq w (codes "season")
    || text_eq w (codes "cour")
    || text_eq w (codes "part")
    || text_eq w (codes "series")
    || text_eq w (codes "the")

unfoldable pub all_digits : Text → Bool
all_digits [] = true
all_digits (c ∷ cs) = leb 48 c && leb c 57 && all_digits cs

unfoldable pub trim_zeros : Text → Text
trim_zeros [] = []
trim_zeros (c ∷ cs) = if c == 48 then trim_zeros cs else c ∷ cs

unfoldable pub trim_number : Text → Text
unfolding all_digits trim_zeros
trim_number (c ∷ d ∷ cs) =
    if c == 48 && all_digits (c ∷ d ∷ cs) then trim_zeros (c ∷ d ∷ cs) else c ∷ d ∷ cs
trim_number w = w

-- `Vec::dedup`, behind the last word kept.
unfoldable pub dedup_after : Text → List Text → List Text
dedup_after last [] = []
dedup_after last (w ∷ ws) = let rest = dedup_after w ws in if text_eq last w then rest else w ∷ rest

unfoldable pub dedup : List Text → List Text
unfolding dedup_after
dedup [] = []
dedup (w ∷ ws) = w ∷ dedup_after w ws

unfoldable pub join : List Text → Text
join [] = []
join (w ∷ []) = w
join (w ∷ v ∷ ws) = w ++ (b' ' ∷ join (v ∷ ws))

unfoldable pub words : Chars → Text → List Text
unfolding half_width keep_alphanumeric split_whitespace filter is_dropped trim_number dedup is_empty
words chars input =
    let lower = chars.to_lowercase (map half_width input) in
    let stripped = map (keep_alphanumeric chars.is_alphanumeric) (chars.deordinalled lower) in
    let kept = filter (λ w. not (is_dropped w)) (split_whitespace stripped) in
    dedup (filter (λ w. not (is_empty w)) (map trim_number kept))

unfoldable pub normalize : Chars → Text → Text
unfolding words join
normalize chars input = join (words chars input)
