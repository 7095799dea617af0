-- ===== src/Filename/Normalize/Laws.antt =====
-- What is left of a title (core/crates/genrl-core/src/filename/normalize.rs, `normalize`).
use genrl_downloader.Prelude.{
  ℕ, Bool, true, false, not, ◌&&◌, ◌≡◌, refl, sym, subst, inl, inr, List, [], ◌∷◌, map, ◌==◌, All,
  All-map, Bool-cases, arith,
}
use genrl_downloader.Text.{Text, text_eq, is_whitespace}
use genrl_downloader.Text.Laws.{eq_of_text_eq}
use genrl_downloader.Filename.Normalize.{
  Chars, half_width, keep_alphanumeric, put_before, split, is_empty, filter, split_whitespace,
  is_dropped, all_digits, trim_zeros, trim_number, dedup_after, dedup, join, words, normalize,
}

-- Only letters and digits.
abbrev pub IsPlain : (ℕ → Bool) → Text → Type 0
IsPlain p = All (λ c. p c ≡ true)

-- No word equals the one before it.
abbrev pub NoTwins : Text → List Text → Type 0
NoTwins last [] = Unit
NoTwins last (w ∷ ws) = (text_eq last w ≡ false) × NoTwins w ws

abbrev pub IsDistinct : List Text → Type 0
IsDistinct [] = Unit
IsDistinct (w ∷ ws) = NoTwins w ws

filter-All :
    (p : Text → Bool) (P : Text → Type 0) (ws : List Text)
    → All P ws
    → All (λ w. P w × (p w ≡ true)) (filter p ws)
unfolding filter
filter-All p P [] h = tt
filter-All p P (w ∷ ws) h = elim (Bool-cases (p w)) [
  | inl kept ↦ rw (kept) ((h.0, kept), filter-All p P ws h.1)
  | inr dropped ↦ rw (dropped) (filter-All p P ws h.1)
]

put_before-All :
    (p : ℕ → Bool) (c : ℕ) (ws : List Text)
    → p c ≡ true
    → All (IsPlain p) ws
    → All (IsPlain p) (put_before c ws)
unfolding put_before
put_before-All p c [] e h = ((e, tt), tt)
put_before-All p c (w ∷ ws) e h = ((e, h.0), h.1)

kept_or_space :
    (p : ℕ → Bool) (c : ℕ)
    → is_whitespace (keep_alphanumeric p c) ≡ false
    → p (keep_alphanumeric p c) ≡ true
unfolding keep_alphanumeric is_whitespace
kept_or_space p c h = elim (Bool-cases (p c)) [
  | inl letter ↦ ground (arith, letter)
  | inr other ↦ absurd (ground (arith, other, h))
]

split-All : (p : ℕ → Bool) (s : Text) → All (IsPlain p) (split (map (keep_alphanumeric p) s))
unfolding split
split-All p [] = (tt, tt)
split-All p (c ∷ s) = elim (Bool-cases (is_whitespace (keep_alphanumeric p c))) [
  | inl space ↦ rw (space) (tt, split-All p s)
  | inr letter ↦ rw (letter) (
      put_before-All p (keep_alphanumeric p c) (split (map (keep_alphanumeric p) s))
        (kept_or_space p c letter) (split-All p s))
]

trim_zeros-All : (p : ℕ → Bool) (w : Text) → IsPlain p w → IsPlain p (trim_zeros w)
unfolding trim_zeros
trim_zeros-All p [] h = h
trim_zeros-All p (c ∷ w) h = elim (Bool-cases (c == 48)) [
  | inl zero' ↦ rw (zero') (trim_zeros-All p w h.1)
  | inr other ↦ rw (other) h
]

digits_kept : (w : Text) → all_digits w ≡ true → is_dropped (trim_zeros w) ≡ false
unfolding all_digits trim_zeros is_dropped text_eq
digits_kept [] h = refl
digits_kept (c ∷ w) h = elim (Bool-cases (c == 48)) [
  | inl zero' ↦ rw (zero') (digits_kept w (ground (arith, h)))
  | inr other ↦ rw (other) ground (arith, h, other)
]

dedup_after-NoTwins : (last : Text) (ws : List Text) → NoTwins last (dedup_after last ws)
unfolding dedup_after
dedup_after-NoTwins last [] = tt
dedup_after-NoTwins last (w ∷ ws) = elim (Bool-cases (text_eq last w)) [
  | inl twin ↦ rw (twin) (
      subst (λ v. NoTwins v (dedup_after w ws)) (sym (eq_of_text_eq last w twin))
        (dedup_after-NoTwins w ws))
  | inr new ↦ rw (new) (new, dedup_after-NoTwins w ws)
]

dedup_after-All :
    (P : Text → Type 0) (last : Text) (ws : List Text) → All P ws → All P (dedup_after last ws)
unfolding dedup_after
dedup_after-All P last [] h = h
dedup_after-All P last (w ∷ ws) h = elim (Bool-cases (text_eq last w)) [
  | inl twin ↦ rw (twin) (dedup_after-All P w ws h.1)
  | inr new ↦ rw (new) (h.0, dedup_after-All P w ws h.1)
]

-- A word that is no season word, of letters and digits.
abbrev IsKept : (ℕ → Bool) → Text → Type 0
IsKept p w = IsPlain p w × (is_dropped w ≡ false)

-- Such a word that is not empty.
abbrev pub IsWord : (ℕ → Bool) → Text → Type 0
IsWord p w = IsPlain p w × (is_dropped w ≡ false) × (is_empty w ≡ false)

trim_number-IsKept : (p : ℕ → Bool) (w : Text) → IsKept p w → IsKept p (trim_number w)
unfolding trim_number
trim_number-IsKept p [] h = h
trim_number-IsKept p (c ∷ []) h = h
trim_number-IsKept p (c ∷ d ∷ w) h = elim (Bool-cases (c == 48 && all_digits (c ∷ d ∷ w))) [
  | inl number ↦
      rw (number)
        (trim_zeros-All p (c ∷ d ∷ w) h.0, digits_kept (c ∷ d ∷ w) (ground (arith, number)))
  | inr other ↦ rw (other) h
]

map-All :
    (P Q : Text → Type 0) (f : Text → Text) (ws : List Text)
    → ((w : Text) → P w → Q (f w))
    → All P ws
    → All Q (map f ws)
map-All P Q f [] k h = tt
map-All P Q f (w ∷ ws) k h = (k w h.0, map-All P Q f ws k h.1)

negated : (b : Bool) → not b ≡ true → b ≡ false
negated b h = ground (arith, h)

dedup-All : (P : Text → Type 0) (ws : List Text) → All P ws → All P (dedup ws)
unfolding dedup
dedup-All P [] h = h
dedup-All P (w ∷ ws) h = (h.0, dedup_after-All P w ws h.1)

dedup-IsDistinct : (ws : List Text) → IsDistinct (dedup ws)
unfolding dedup
dedup-IsDistinct [] = tt
dedup-IsDistinct (w ∷ ws) = dedup_after-NoTwins w ws

words-IsWord :
    (chars : Chars) (input : Text) → All (IsWord chars.is_alphanumeric) (words chars input)
unfolding words split_whitespace
words-IsWord chars input =
    let p = chars.is_alphanumeric in
    let s = chars.deordinalled (chars.to_lowercase (map half_width input)) in
    let pieces = split (map (keep_alphanumeric p) s) in
    let full = filter (λ w. not (is_empty w)) pieces in
    let kept = filter (λ w. not (is_dropped w)) full in
    let plain =
      All-map (λ w h. h.0) full
        (filter-All (λ w. not (is_empty w)) (IsPlain p) pieces (split-All p s)) in
    let h = filter-All (λ w. not (is_dropped w)) (IsPlain p) full plain in
    let h' =
      map-All (λ w. IsPlain p w × (not (is_dropped w) ≡ true)) (IsKept p) trim_number kept
        (λ w k. trim_number-IsKept p w (k.0, negated (is_dropped w) k.1)) h in
    dedup-All (IsWord p) (filter (λ w. not (is_empty w)) (map trim_number kept)) (
      All-map (λ w k. (k.0.0, k.0.1, negated (is_empty w) k.1))
        (filter (λ w. not (is_empty w)) (map trim_number kept))
        (filter-All (λ w. not (is_empty w)) (IsKept p) (map trim_number kept) h'))

words-IsDistinct : (chars : Chars) (input : Text) → IsDistinct (words chars input)
unfolding words
words-IsDistinct chars input =
    let stripped =
      map (keep_alphanumeric chars.is_alphanumeric)
        (chars.deordinalled (chars.to_lowercase (map half_width input))) in
    dedup-IsDistinct (
      filter (λ w. not (is_empty w))
        (map trim_number (filter (λ w. not (is_dropped w)) (split_whitespace stripped))))

-- A title is normalized to its words, joined by one space: each word is not empty, has only letters
-- and digits, is not one of "season", "cour", "part", "series" and "the", and differs from the word
-- before it.
pub normalize_words :
    (chars : Chars) (input : Text)
    → (ws : List Text) × (normalize chars input ≡ join ws)
      × All (IsWord chars.is_alphanumeric) ws
      × IsDistinct ws
unfolding normalize
normalize_words chars input =
    (words chars input, refl, words-IsWord chars input, words-IsDistinct chars input)
