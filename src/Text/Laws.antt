-- ===== src/Text/Laws.antt =====
-- Text comparison decides equality, and trimming keeps what holds of all characters.
use mathlib.Core.List.{reverse, reverse_aux}
use genrl_downloader.Prelude.{ℕ, ◌≡◌, refl, inl, inr, true, [], ◌∷◌, All, Bool-cases, arith}
use genrl_downloader.Text.{Text, text_eq, is_whitespace, trim_start, trim}

pub text_eq_refl : (s : Text) → text_eq s s ≡ true
unfolding text_eq
text_eq_refl [] = refl
text_eq_refl (c ∷ s) = ground (arith, text_eq_refl s)

pub eq_of_text_eq : (s t : Text) → text_eq s t ≡ true → s ≡ t
unfolding text_eq
eq_of_text_eq [] [] h = refl
eq_of_text_eq [] (y ∷ t) h = ground arith
eq_of_text_eq (x ∷ s) [] h = ground arith
eq_of_text_eq (x ∷ s) (y ∷ t) h = ground (arith, eq_of_text_eq s t)

module _ (P : ℕ → Type 0) where
  trim_start-All : (s : Text) → All P s → All P (trim_start s)
  unfolding trim_start
  trim_start-All [] h = h
  trim_start-All (c ∷ s) h = elim (Bool-cases (is_whitespace c)) [
    | inl space ↦ rw (space) (trim_start-All s h.1)
    | inr kept ↦ rw (kept) h
  ]

  -- What holds of all characters holds of them in the other order, in front of `t`.
  pub reverse_aux-All : (s t : Text) → All P s → All P t → All P (reverse_aux s t)
  reverse_aux-All [] t h k = k
  reverse_aux-All (c ∷ s) t h k = reverse_aux-All s (c ∷ t) h.1 (h.0, k)

  pub trim-All : (s : Text) → All P s → All P (trim s)
  unfolding trim
  trim-All s h =
      let first = trim_start-All s h in
      let back = reverse (trim_start s) in
      reverse_aux-All (trim_start back) []
        (trim_start-All back (reverse_aux-All (trim_start s) [] first tt)) tt
