-- ===== src/Library/Formatting.antt =====
-- Texts from the network as names and lines (core/crates/genrl-core/src/library/formatting.rs).
pub mod Laws
pub mod Escape
use mathlib.Core.List.{reverse}
use genrl_downloader.Prelude.{
  ℕ, zero, suc, Bool, true, false, not, ◌&&◌, ◌||◌, List, [], ◌∷◌, ◌==◌, ltb, leb, if◌then◌else◌,
}
use genrl_downloader.Text.{Text, codes, trim, starts_with}
use genrl_downloader.Filename.Normalize.{is_empty}

-- / \ : * ? " < > | and NUL
unfoldable pub is_separator : ℕ → Bool
is_separator c =
    c == 47
    || c == 92
    || c == 58
    || c == 42
    || c == 63
    || c == 34
    || c == 60
    || c == 62
    || c == 124
    || c == 0

unfoldable pub is_control : ℕ → Bool
is_control c = ltb c 32 || (leb 127 c && leb c 159)

-- Marks that turn the direction of writing.
unfoldable pub is_bidi : ℕ → Bool
is_bidi c = c == 8206 || c == 8207 || (leb 8234 c && leb c 8238) || (leb 8294 c && leb c 8297)

-- The loop over the characters.
unfoldable pub replaced : Text → Text
unfolding is_separator is_control is_bidi
replaced [] = []
replaced (c ∷ cs) =
    let rest = replaced cs in
    if is_separator c
    then b'-' ∷ rest
    else if is_control c
    then rest
    else if is_bidi c
    then rest
    else c ∷ rest

unfoldable pub dot_or_dash : ℕ → Bool
dot_or_dash c = c == 46 || c == 45

unfoldable pub drop_while : (ℕ → Bool) → Text → Text
drop_while p [] = []
drop_while p (c ∷ cs) = let rest = drop_while p cs in if p c then rest else c ∷ cs

unfoldable pub trim_matches : (ℕ → Bool) → Text → Text
unfolding drop_while
trim_matches p s = reverse (drop_while p (reverse (drop_while p s)))

unfoldable pub take : ℕ → Text → Text
take zero s = []
take (suc n) [] = []
take (suc n) (c ∷ cs) = c ∷ take n cs

abbrev pub max_name_length : ℕ
max_name_length = 120

unfoldable pub trimmed : Text → Text
unfolding replaced trim trim_matches dot_or_dash
trimmed name = trim (trim_matches dot_or_dash (trim (replaced name)))

unfoldable pub sanitize_component : Text → Text
unfolding trimmed take
sanitize_component name =
    let t = trimmed name in if is_empty t then codes "Show" else take max_name_length t

unfoldable pub one_line : Text → Text
one_line [] = []
one_line (c ∷ cs) =
    let rest = one_line cs in
    if c == 13 || c == 10 then 32 ∷ rest else if leb 32 c && not (c == 127) then c ∷ rest else rest

unfoldable pub sanitize_single_line : Text → Text
unfolding one_line trim
sanitize_single_line s = trim (one_line s)

unfoldable pub is_placeholder_synopsis : Text → Bool
unfolding trim is_empty starts_with
is_placeholder_synopsis content =
    let t = trim content in
    is_empty t
    || starts_with t (codes "[Synopsis pending")
    || starts_with t (codes "[Synopsis unavailable")
    || starts_with t (codes "[Synopsis loading")
