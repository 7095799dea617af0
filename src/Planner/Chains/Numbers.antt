-- ===== src/Planner/Chains/Numbers.antt =====
-- Sorting the franchise numbers and dropping the repeated ones (`sort_unstable` and `dedup` in
-- core/crates/genrl-core/src/planner/list.rs, `chains`).
use genrl_downloader.Prelude.{
  ℕ, suc, ◌+◌, ◌≤◌, ◌<◌, ◌≡◌, refl, ap, ◌∙◌, List, [], ◌∷◌, ◌==◌, leb, if◌then◌else◌, All, All-map,
  Bool-cases, inl, inr, arith,
}
use genrl_downloader.Planner.{insert_number, sorted, unrepeated}

unfoldable pub occurs : ℕ → List ℕ → ℕ
occurs n [] = 0
occurs n (m ∷ ms) = (if m == n then 1 else 0) + occurs n ms

-- No number before a smaller one.
abbrev pub Ordered : List ℕ → Type 0
Ordered [] = Unit {0}
Ordered (n ∷ ns) = All (λ m. n ≤ m) ns × Ordered ns

insert_number-All :
    (k n : ℕ) (ns : List ℕ) → k ≤ n → All (λ m. k ≤ m) ns → All (λ m. k ≤ m) (insert_number n ns)
unfolding insert_number
insert_number-All k n [] h a = (h, tt)
insert_number-All k n (m ∷ ms) h a = elim (Bool-cases (leb n m)) [
  | inl le ↦ rw (le, insert_number) (h, a)
  | inr gt ↦ rw (gt, insert_number) (a.0, insert_number-All k n ms h a.1)
]

insert_number-Ordered : (n : ℕ) (ns : List ℕ) → Ordered ns → Ordered (insert_number n ns)
unfolding insert_number
insert_number-Ordered n [] o = (tt, tt)
insert_number-Ordered n (m ∷ ms) o = elim (Bool-cases (leb n m)) [
  | inl le ↦
      rw (le, insert_number) ((ground (arith, le), All-map (λ x h. ground (arith, le)) ms o.0), o)
  | inr gt ↦
      rw (gt, insert_number)
        (insert_number-All m n ms (ground (arith, gt)) o.0, insert_number-Ordered n ms o.1)
]

pub sorted-Ordered : (ns : List ℕ) → Ordered (sorted ns)
unfolding sorted
sorted-Ordered [] = tt
sorted-Ordered (n ∷ ns) = insert_number-Ordered n (sorted ns) (sorted-Ordered ns)

occurs-insert : (k n : ℕ) (ns : List ℕ) → occurs k (insert_number n ns) ≡ occurs k (n ∷ ns)
unfolding insert_number occurs
occurs-insert k n [] = refl
occurs-insert k n (m ∷ ms) = ground (arith, occurs-insert k n ms)

pub occurs-sorted : (k : ℕ) (ns : List ℕ) → occurs k (sorted ns) ≡ occurs k ns
unfolding sorted occurs
occurs-sorted k [] = refl
occurs-sorted k (n ∷ ns) =
    occurs-insert k n (sorted ns) ∙ ap (λ x. (if n == k then 1 else 0) + x) (occurs-sorted k ns)

occurs-above : (k : ℕ) (ns : List ℕ) → All (λ m. suc k ≤ m) ns → occurs k ns ≡ 0
unfolding occurs
occurs-above k [] a = refl
occurs-above k (m ∷ ms) a = ground (arith, occurs-above k ms a.1, a.0)

pub occurs-unrepeated_zero : (k : ℕ) (ns : List ℕ) → occurs k ns ≡ 0 → occurs k (unrepeated ns) ≡ 0
unfolding unrepeated occurs
occurs-unrepeated_zero k [] h = refl
occurs-unrepeated_zero k (n ∷ []) h = h
occurs-unrepeated_zero k (n ∷ m ∷ ms) h = ground (arith, occurs-unrepeated_zero k (m ∷ ms))

above : (n m : ℕ) (ms : List ℕ) → suc n ≤ m → All (λ x. m ≤ x) ms → All (λ x. suc n ≤ x) (m ∷ ms)
above n m ms h a = (h, All-map (λ x le. omega arith) ms a)

-- Each number stays, once.
pub occurs-unrepeated :
    (k : ℕ) (ns : List ℕ) → Ordered ns → 0 < occurs k ns → occurs k (unrepeated ns) ≡ 1
unfolding unrepeated occurs
occurs-unrepeated k [] o h = absurd (omega arith)
occurs-unrepeated k (n ∷ []) o h = ground arith
occurs-unrepeated k (n ∷ m ∷ ms) o h = elim (Bool-cases (n == m)) [
  | inl same ↦ ground (arith, same, occurs-unrepeated k (m ∷ ms) o.1)
  | inr other ↦ elim (Bool-cases (n == k)) [
    | inl it ↦
        let none_left : occurs k (m ∷ ms) ≡ 0 =
          occurs-above k (m ∷ ms) (above k m ms (ground (arith, other, it, o.0.0)) o.1.0) in
        ground (arith, other, it, occurs-unrepeated_zero k (m ∷ ms) none_left)
    | inr no_match ↦ ground (arith, other, no_match, occurs-unrepeated k (m ∷ ms) o.1)
  ]
]
