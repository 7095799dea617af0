-- ===== src/Filename/Fuzzy/Laws.antt =====
-- What the table computes and what the ratio says (core/crates/genrl-core/src/filename/normalize.rs).
use genrl_downloader.Prelude.{
  ℕ, ◌+◌, ◌-◌, ◌≤◌, ◌<◌, max, ◌≡◌, ◌↔◌, refl, subst, ap, some, [], ◌∷◌, length, arith,
}
use genrl_downloader.Text.{Text}
use genrl_downloader.Filename.Fuzzy.{levenshtein, fuzzy_ratio}
use genrl_downloader.Filename.Fuzzy.Scripts.{
  Script, end, keep, replace, insert, remove, distance, inserts, removes, distance-Script,
  distance-least,
}
use genrl_downloader.Filename.Fuzzy.Rows.{reverse_onto, levenshtein-reverse_onto}

turned :
    {xs ys us vs : Text} {n m : ℕ}
    → Script xs ys n
    → Script us vs m
    → Script (reverse_onto xs us) (reverse_onto ys vs) (n + m)
unfolding reverse_onto
turned {us = us} {vs} {m = m} end t = subst (Script us vs) (omega arith) t
turned {us = us} {vs} {m = m} (keep x s) t = turned s (keep x t)
turned {us = us} {vs} {m = m} (replace x y {xs} {ys} {n} s) t =
    subst (Script (reverse_onto xs (x ∷ us)) (reverse_onto ys (y ∷ vs))) (omega arith)
      (turned s (replace x y t))
turned {us = us} {vs} {m = m} (insert y {xs} {ys} {n} s) t =
    subst (Script (reverse_onto xs us) (reverse_onto ys (y ∷ vs))) (omega arith)
      (turned s (insert y t))
turned {us = us} {vs} {m = m} (remove x {xs} {ys} {n} s) t =
    subst (Script (reverse_onto xs (x ∷ us)) (reverse_onto ys vs)) (omega arith)
      (turned s (remove x t))

turned_back : (a b : Text) → reverse_onto (reverse_onto a b) [] ≡ reverse_onto b a
unfolding reverse_onto
turned_back [] b = refl
turned_back (x ∷ a) b = turned_back a (x ∷ b)

-- The same changes, made from the other end.
flipped : {a b : Text} {n : ℕ} → Script a b n → Script (reverse_onto a []) (reverse_onto b []) n
flipped {a} {b} {n} s =
    subst (Script (reverse_onto a []) (reverse_onto b [])) (omega arith) (turned s end)

flipped_back :
    (a b : Text) {n : ℕ} → Script (reverse_onto a []) (reverse_onto b []) n → Script a b n
unfolding reverse_onto
flipped_back a b {n} s =
    subst (λ xs. Script xs b n) (turned_back a [])
      (subst (λ ys. Script (reverse_onto (reverse_onto a []) []) ys n) (turned_back b [])
        (flipped s))

-- `levenshtein` never indexes past its rows, and returns the least number of replaced, inserted
-- and removed characters that turn `a` into `b`: some edit script makes that many changes, and none
-- makes fewer.
pub levenshtein_least :
    (a b : Text)
    → (n : ℕ) × (levenshtein a b ≡ some n) × Script a b n × ((m : ℕ) → Script a b m → n ≤ m)
levenshtein_least a b =
    let n = distance (reverse_onto a []) (reverse_onto b []) in
    (
      n,
      levenshtein-reverse_onto a b,
      flipped_back a b (distance-Script (reverse_onto a []) (reverse_onto b [])),
      λ m s. distance-least (flipped s),
    )

free : {a b : Text} {n : ℕ} → Script a b n → n ≡ 0 → a ≡ b
free end e = refl
free (keep x s) e = ap (λ r. x ∷ r) (free s e)
free (replace x y s) e = ground (arith, e)
free (insert y s) e = ground (arith, e)
free (remove x s) e = ground (arith, e)

kept : (a : Text) → Script a a 0
kept [] = end
kept (x ∷ a) = keep x (kept a)

-- Replace as far as both go on.
replaced_all : (a b : Text) → Script a b (max (length a) (length b))
replaced_all [] b = subst (Script [] b) (omega arith) (inserts b)
replaced_all (x ∷ a) [] = subst (Script (x ∷ a) []) (omega arith) (removes (x ∷ a))
replaced_all (x ∷ a) (y ∷ b) =
    subst (Script (x ∷ a) (y ∷ b)) (omega arith) (replace x y (replaced_all a b))

ratio_value :
    (x y : ℕ) (a b : Text) {n : ℕ}
    → levenshtein (x ∷ a) (y ∷ b) ≡ some n
    → fuzzy_ratio (x ∷ a) (y ∷ b)
      ≡ some (max (length (x ∷ a)) (length (y ∷ b)) - n, max (length (x ∷ a)) (length (y ∷ b)))
unfolding fuzzy_ratio
ratio_value x y a b e = ground (arith, e)

-- `fuzzy_ratio` never panics and never divides by zero: it returns a fraction from 0 to 1, and 1
-- exactly for equal texts.
pub fuzzy_ratio_correct :
    (a b : Text)
    → (p q : ℕ) × (fuzzy_ratio a b ≡ some (p, q)) × (0 < q) × (p ≤ q) × ((p ≡ q) ↔ (a ≡ b))
unfolding fuzzy_ratio
fuzzy_ratio_correct [] [] = (1, 1, refl, omega arith, omega arith, (λ e. refl, λ e. refl))
fuzzy_ratio_correct [] (y ∷ b) =
    (0, 1, refl, omega arith, omega arith, (λ e. ground (arith, e), λ e. ground (arith, e)))
fuzzy_ratio_correct (x ∷ a) [] =
    (0, 1, refl, omega arith, omega arith, (λ e. ground (arith, e), λ e. ground (arith, e)))
fuzzy_ratio_correct (x ∷ a) (y ∷ b) =
    let (n, found, script, least) = levenshtein_least (x ∷ a) (y ∷ b) in
    let most = max (length (x ∷ a)) (length (y ∷ b)) in
    let bound : n ≤ most = least most (replaced_all (x ∷ a) (y ∷ b)) in
    (
      most - n,
      most,
      ratio_value x y a b found,
      omega arith,
      omega arith,
      (
        λ e. free script (omega (arith, e, bound)),
        λ e. omega (arith, least 0 (subst (λ t. Script (x ∷ a) t 0) e (kept (x ∷ a)))),
      ),
    )
