-- ===== src/Filename/Fuzzy/Rows.antt =====
-- The rows of the table are those of the recursive distance, on the reversed beginnings.
use genrl_downloader.Prelude.{
  ℕ, ◌+◌, ◌≡◌, refl, ap, ◌∙◌, some, List, [], ◌∷◌, length, get_elem?, arith,
}
use genrl_downloader.Text.{Text}
use genrl_downloader.Filename.Fuzzy.{fill_row, fill_rows, first_row, levenshtein}
use genrl_downloader.Filename.Fuzzy.Scripts.{distance}

-- `xs` turned round, in front of `ys`.
unfoldable pub reverse_onto : Text → Text → Text
reverse_onto [] ys = ys
reverse_onto (x ∷ xs) ys = reverse_onto xs (x ∷ ys)

unfoldable pub row : Text → Text → Text → List ℕ
row ra rb [] = distance ra rb ∷ []
row ra rb (y ∷ b) = distance ra rb ∷ row ra (y ∷ rb) b

fill_row-row :
    (x : ℕ) (ra rb b : Text)
    → distance (x ∷ ra) rb ∷ fill_row x b (row ra rb b) (distance (x ∷ ra) rb) ≡ row (x ∷ ra) rb b
unfolding row fill_row distance
fill_row-row x ra rb [] = refl
fill_row-row x ra rb (y ∷ []) = refl
fill_row-row x ra rb (y ∷ z ∷ b) =
    ap (λ r. distance (x ∷ ra) rb ∷ r) (fill_row-row x ra (y ∷ rb) (z ∷ b))

first_row-row : (rb b : Text) → first_row b (length rb) ≡ row [] rb b
unfolding first_row row distance
first_row-row rb [] = refl
first_row-row rb (y ∷ b) =
    ap (λ r. length rb ∷ r) (ap (first_row b) (omega arith) ∙ first_row-row (y ∷ rb) b)

fill_rows-row :
    (ra a b : Text) → fill_rows a b (row ra [] b) (length ra) ≡ row (reverse_onto a ra) [] b
unfolding fill_rows reverse_onto distance
fill_rows-row ra [] b = refl
fill_rows-row ra (x ∷ a) b =
    ap (λ r. fill_rows a b r (length ra + 1))
      (ap (λ k. k ∷ fill_row x b (row ra [] b) k) (omega arith) ∙ fill_row-row x ra [] b)
    ∙ ap (fill_rows a b (row (x ∷ ra) [] b)) (omega arith)
    ∙ fill_rows-row (x ∷ ra) a b

last-row :
    (ra rb b : Text) → get_elem? (row ra rb b) (length b) ≡ some (distance ra (reverse_onto b rb))
unfolding row reverse_onto
last-row ra rb [] = refl
last-row ra rb (y ∷ b) = last-row ra (y ∷ rb) b

-- The table's last cell is the distance of the texts turned round.
pub levenshtein-reverse_onto :
    (a b : Text) → levenshtein a b ≡ some (distance (reverse_onto a []) (reverse_onto b []))
unfolding levenshtein
levenshtein-reverse_onto a b =
    ap (λ r. get_elem? (fill_rows a b r 0) (length b)) (first_row-row [] b)
    ∙ ap (λ r. get_elem? r (length b)) (fill_rows-row [] a b)
    ∙ last-row (reverse_onto a []) [] b
