-- ===== src/Filename/Fuzzy.antt =====
-- Comparing titles (core/crates/genrl-core/src/filename/normalize.rs, `fuzzy_ratio` and
-- `levenshtein`). A row of the table is a list; `cur` is written in full before it is read, so the
-- rows need no swap. A ratio is a fraction, for the f64.
pub mod Rows
pub mod Scripts
pub mod Laws
use genrl_downloader.Prelude.{
  ℕ, zero, suc, ◌+◌, ◌-◌, min, max, Option, none, some, List, [], ◌∷◌, ◌==◌, if◌then◌else◌, length,
  get_elem?,
}
use genrl_downloader.Text.{Text}

unfoldable pub cost : ℕ → ℕ → ℕ
cost x y = if x == y then 0 else 1

-- The inner loop: `prev` from the cell before this one on, and the cell to the left.
unfoldable pub fill_row : ℕ → Text → List ℕ → ℕ → List ℕ
unfolding cost
fill_row x (y ∷ ys) (p ∷ q ∷ prev) left =
    let cell = min (min (p + cost x y) (q + 1)) (left + 1) in cell ∷ fill_row x ys (q ∷ prev) cell
fill_row x _ _ left = []

-- The outer loop, from the `i`-th row on.
unfoldable pub fill_rows : Text → Text → List ℕ → ℕ → List ℕ
unfolding fill_row
fill_rows [] b prev i = prev
fill_rows (x ∷ a) b prev i = fill_rows a b ((i + 1) ∷ fill_row x b prev (i + 1)) (i + 1)

-- `(0..=b.len())`
unfoldable pub first_row : Text → ℕ → List ℕ
first_row [] n = n ∷ []
first_row (y ∷ b) n = n ∷ first_row b (n + 1)

-- `none` where the last index panics.
unfoldable pub levenshtein : Text → Text → Option ℕ
unfolding fill_rows first_row
levenshtein a b = get_elem? (fill_rows a b (first_row b 0) 0) (length b)

-- Numerator and denominator.
abbrev pub Ratio : Type 0
Ratio = ℕ × ℕ

unfoldable pub fuzzy_ratio : Text → Text → Option Ratio
fuzzy_ratio [] [] = some (1, 1)
fuzzy_ratio [] (y ∷ b) = some (0, 1)
fuzzy_ratio (x ∷ a) [] = some (0, 1)
fuzzy_ratio (x ∷ a) (y ∷ b) = elim (levenshtein (x ∷ a) (y ∷ b)) [
  | none ↦ none
  | some distance ↦
      let longest = max (length (x ∷ a)) (length (y ∷ b)) in some (longest - distance, longest)
]
