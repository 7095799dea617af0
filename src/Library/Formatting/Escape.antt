-- ===== src/Library/Formatting/Escape.antt =====
-- A name that leads out of the library (core/crates/genrl-core/src/library/formatting.rs).
use genrl_downloader.Prelude.{ℕ, true, ◌≡◌, refl, ap, [], ◌∷◌, ◌++◌, if◌then◌else◌}
use genrl_downloader.Text.{Text, codes, trim, is_whitespace}
use genrl_downloader.Filename.Normalize.{is_empty}
use genrl_downloader.Library.Formatting.{
  is_separator, is_control, is_bidi, replaced, dot_or_dash, drop_while, trim_matches, take, trimmed,
  sanitize_component,
}

-- Two dots with a space and a separator on either side.
abbrev dots_between : ℕ → ℕ → Text
dots_between c d = c ∷ (codes " .. " ++ (d ∷ []))

dashes :
    (c d : ℕ)
    → is_separator c ≡ true
    → is_separator d ≡ true
    → replaced (dots_between c d) ≡ codes "- .. -"
unfolding replaced is_separator is_control is_bidi
dashes c d h k = rw (h, k) refl

-- Whatever two path separators or other forbidden characters stand around " .. ", the sanitized name
-- is "..", the parent directory.
pub sanitize_component_escapes :
    (c d : ℕ)
    → is_separator c ≡ true
    → is_separator d ≡ true
    → sanitize_component (dots_between c d) ≡ codes ".."
unfolding sanitize_component trimmed trim trim_matches drop_while dot_or_dash is_whitespace take
    is_empty
sanitize_component_escapes c d h k =
    ap
      (λ s.
        let t = trim (trim_matches dot_or_dash (trim s)) in
        if is_empty t then codes "Show" else take 120 t)
      (dashes c d h k)
