-- ===== src/Filename/Fuzzy/Scripts.antt =====
-- Edit scripts, and the recursive distance as the least price of one.
use genrl_downloader.Prelude.{
  ℕ, suc, ◌+◌, ◌≤◌, min, ◌≡◌, refl, sym, subst, [], ◌∷◌, length, arith, inl, inr, ◌⊎◌, Bool-cases,
  ◌==◌,
}
use genrl_downloader.Text.{Text}
use genrl_downloader.Filename.Fuzzy.{cost}

-- A way to turn one text into another, and how many changes it makes.
pub data Script : Text → Text → ℕ → Type 0 where
  end : Script [] [] 0
  keep : (x : ℕ) {xs ys : Text} {n : ℕ} → Script xs ys n → Script (x ∷ xs) (x ∷ ys) n
  replace : (x y : ℕ) {xs ys : Text} {n : ℕ} → Script xs ys n → Script (x ∷ xs) (y ∷ ys) (suc n)
  insert : (y : ℕ) {xs ys : Text} {n : ℕ} → Script xs ys n → Script xs (y ∷ ys) (suc n)
  remove : (x : ℕ) {xs ys : Text} {n : ℕ} → Script xs ys n → Script (x ∷ xs) ys (suc n)

unfoldable pub distance : Text → Text → ℕ
unfolding cost
distance [] ys = length ys
distance (x ∷ xs) [] = suc (length xs)
distance (x ∷ xs) (y ∷ ys) =
    min (min (distance xs ys + cost x y) (distance xs (y ∷ ys) + 1)) (distance (x ∷ xs) ys + 1)

pub inserts : (ys : Text) → Script [] ys (length ys)
inserts [] = end
inserts (y ∷ ys) = insert y (inserts ys)

pub removes : (xs : Text) → Script xs [] (length xs)
removes [] = end
removes (x ∷ xs) = remove x (removes xs)

diagonal :
    (x y : ℕ) {xs ys : Text} {n : ℕ} → Script xs ys n → Script (x ∷ xs) (y ∷ ys) (n + cost x y)
unfolding cost
diagonal x y {xs} {ys} {n} s = elim (Bool-cases (x == y)) [
  | inl same ↦
      let eq : x ≡ y = ground (arith, same) in
      subst (Script (x ∷ xs) (y ∷ ys)) (ground (arith, same))
        (subst (λ z. Script (x ∷ xs) (z ∷ ys) n) eq (keep x s))
  | inr differ ↦ subst (Script (x ∷ xs) (y ∷ ys)) (ground (arith, differ)) (replace x y s)
]

least_of : (a b c : ℕ) → (min (min a b) c ≡ a) ⊎ ((min (min a b) c ≡ b) ⊎ (min (min a b) c ≡ c))
least_of a b c = ground arith

-- The distance is the price of some script.
pub distance-Script : (xs ys : Text) → Script xs ys (distance xs ys)
unfolding distance
distance-Script [] ys = inserts ys
distance-Script (x ∷ xs) [] = removes (x ∷ xs)
distance-Script (x ∷ xs) (y ∷ ys) =
    let across = diagonal x y (distance-Script xs ys) in
    let down = remove x (distance-Script xs (y ∷ ys)) in
    let right = insert y (distance-Script (x ∷ xs) ys) in
    elim (least_of (distance xs ys + cost x y) (distance xs (y ∷ ys) + 1)
      (distance (x ∷ xs) ys + 1)) [
        | inl e ↦ subst (Script (x ∷ xs) (y ∷ ys)) (sym e) across
        | inr (inl e) ↦ subst (Script (x ∷ xs) (y ∷ ys)) (omega (arith, e)) down
        | inr (inr e) ↦ subst (Script (x ∷ xs) (y ∷ ys)) (omega (arith, e)) right
      ]

distance-nil : (xs : Text) → distance xs [] ≡ length xs
unfolding distance
distance-nil [] = refl
distance-nil (x ∷ xs) = refl

insert_step : (y : ℕ) (xs ys : Text) {n : ℕ} → distance xs ys ≤ n → distance xs (y ∷ ys) ≤ suc n
unfolding distance
insert_step y [] ys h = omega (arith, h)
insert_step y (x ∷ xs) ys h = omega (arith, h)

remove_step : (x : ℕ) (xs ys : Text) {n : ℕ} → distance xs ys ≤ n → distance (x ∷ xs) ys ≤ suc n
unfolding distance
remove_step x xs [] h = omega (arith, h, distance-nil xs)
remove_step x xs (y ∷ ys) h = omega (arith, h)

-- No script is cheaper.
pub distance-least : {xs ys : Text} {n : ℕ} → Script xs ys n → distance xs ys ≤ n
unfolding distance
distance-least end = omega arith
distance-least (keep x s) = ground (arith, distance-least s)
distance-least (replace x y s) = ground (arith, distance-least s)
distance-least (insert y {xs} {ys} s) = insert_step y xs ys (distance-least s)
distance-least (remove x {xs} {ys} s) = remove_step x xs ys (distance-least s)
