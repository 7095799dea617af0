-- ===== src/Planner/Chains.antt =====
-- The chains of a list (core/crates/genrl-core/src/planner/list.rs, `chains`).
pub mod Numbers
use genrl_downloader.Prelude.{
  ℕ, zero, suc, ◌+◌, ◌≤◌, ◌<◌, Bool, true, false, ◌&&◌, ◌≡◌, refl, sym, ap, ◌∙◌, ◌≢◌, List, [], ◌∷◌,
  ◌++◌, ◌==◌, leb, if◌then◌else◌, map, All, All-map, Bool-cases, inl, inr, arith,
}
use genrl_downloader.Planner.Chains.Numbers.{
  occurs, sorted-Ordered, occurs-sorted, occurs-unrepeated,
}
use genrl_downloader.Planner.{
  ListEntry, MalList, insert_number, sorted, unrepeated, of_franchise, insert_season, by_season,
  franchises, groups,
}

-- How many entries pass a test.
abbrev pub count : (ListEntry → Bool) → MalList → ℕ
count p [] = 0
count p (e ∷ es) = (if p e then 1 else 0) + count p es

abbrev pub count_all : (ListEntry → Bool) → List MalList → ℕ
count_all p [] = 0
count_all p (g ∷ gs) = count p g + count_all p gs

count-insert :
    (p : ListEntry → Bool) (e : ListEntry) (es : MalList)
    → count p (insert_season e es) ≡ count p (e ∷ es)
unfolding insert_season
count-insert p e [] = refl
count-insert p e (x ∷ xs) = elim (Bool-cases (leb e.season x.season)) [
  | inl le ↦ rw (le, insert_season) refl
  | inr gt ↦ rw (gt, insert_season) (omega (arith, count-insert p e xs))
]

pub count-by_season : (p : ListEntry → Bool) (es : MalList) → count p (by_season es) ≡ count p es
unfolding by_season
count-by_season p [] = refl
count-by_season p (e ∷ es) =
    count-insert p e (by_season es) ∙ ap (λ n. (if p e then 1 else 0) + n) (count-by_season p es)

-- The entries of the given franchises, together.
abbrev of_all : (ListEntry → Bool) → List ℕ → MalList → ℕ
of_all p [] list = 0
of_all p (f ∷ fs) list = count p (of_franchise f list) + of_all p fs list

of_all-nil : (p : ListEntry → Bool) (fs : List ℕ) → of_all p fs [] ≡ 0
unfolding of_franchise
of_all-nil p [] = refl
of_all-nil p (f ∷ fs) = omega (arith, of_all-nil p fs)

of_all-cons :
    (p : ListEntry → Bool) (fs : List ℕ) (e : ListEntry) (es : MalList)
    → of_all p fs (e ∷ es) ≡ (if p e then occurs e.franchise fs else 0) + of_all p fs es
unfolding of_franchise occurs
of_all-cons p [] e es = ground arith
of_all-cons p (f ∷ fs) e es = ground (arith, of_all-cons p fs e es)

once :
    (p : ListEntry → Bool) (fs : List ℕ) (es : MalList)
    → All (λ e. occurs e.franchise fs ≡ 1) es
    → of_all p fs es ≡ count p es
once p fs [] h = of_all-nil p fs
once p fs (e ∷ es) h = ground (arith, of_all-cons p fs e es, h.0, once p fs es h.1)

occurs_in : (es : MalList) → All (λ e. 0 < occurs e.franchise (map (λ e. e.franchise) es)) es
unfolding occurs
occurs_in [] = tt
occurs_in (e ∷ es) = (ground arith, All-map (λ x h. omega arith) es (occurs_in es))

listed_once : (list : MalList) → All (λ e. occurs e.franchise (franchises list) ≡ 1) list
unfolding franchises
listed_once list =
    let numbers = map (λ e. e.franchise) list in
    All-map
      (λ e h.
        occurs-unrepeated e.franchise (sorted numbers) (sorted-Ordered numbers)
          (omega (arith, occurs-sorted e.franchise numbers)))
      list (occurs_in list)

counted :
    (p : ListEntry → Bool) (list : MalList) (fs : List ℕ)
    → count_all p (map (λ f. by_season (of_franchise f list)) fs) ≡ of_all p fs list
counted p list [] = refl
counted p list (f ∷ fs) = omega (arith, count-by_season p (of_franchise f list), counted p list fs)

pub count-of_franchise :
    (p : ListEntry → Bool) (f : ℕ) (es : MalList)
    → count p (of_franchise f es) ≡ count (λ e. e.franchise == f && p e) es
unfolding of_franchise
count-of_franchise p f [] = refl
count-of_franchise p f (e ∷ es) = ground (arith, count-of_franchise p f es)

-- No season before an earlier one.
abbrev pub BySeason : MalList → Type 0
BySeason [] = Unit {0}
BySeason (e ∷ es) = All (λ x. e.season ≤ x.season) es × BySeason es

insert_season-All :
    (n : ℕ) (e : ListEntry) (es : MalList)
    → n ≤ e.season
    → All (λ x. n ≤ x.season) es
    → All (λ x. n ≤ x.season) (insert_season e es)
unfolding insert_season
insert_season-All n e [] h a = (h, tt)
insert_season-All n e (x ∷ xs) h a = elim (Bool-cases (leb e.season x.season)) [
  | inl le ↦ rw (le, insert_season) (h, a)
  | inr gt ↦ rw (gt, insert_season) (a.0, insert_season-All n e xs h a.1)
]

insert_season-BySeason :
    (e : ListEntry) (es : MalList) → BySeason es → BySeason (insert_season e es)
unfolding insert_season
insert_season-BySeason e [] o = (tt, tt)
insert_season-BySeason e (x ∷ xs) o = elim (Bool-cases (leb e.season x.season)) [
  | inl le ↦
      rw (le, insert_season) ((ground (arith, le), All-map (λ y h. ground (arith, le)) xs o.0), o)
  | inr gt ↦
      rw (gt, insert_season)
        (insert_season-All x.season e xs (ground (arith, gt)) o.0, insert_season-BySeason e xs o.1)
]

by_season-BySeason : (es : MalList) → BySeason (by_season es)
unfolding by_season
by_season-BySeason [] = tt
by_season-BySeason (e ∷ es) = insert_season-BySeason e (by_season es) (by_season-BySeason es)

-- A group has the entries of one franchise, all of them, in the order of their seasons.
abbrev pub IsFranchise : MalList → MalList → Type 0
IsFranchise list g =
    BySeason g
    × ((f : ℕ) × ((p : ListEntry → Bool) → count p g ≡ count (λ e. e.franchise == f && p e) list))

each-IsFranchise :
    (list : MalList) (fs : List ℕ)
    → All (IsFranchise list) (map (λ f. by_season (of_franchise f list)) fs)
each-IsFranchise list [] = tt
each-IsFranchise list (f ∷ fs) = (
  (
    by_season-BySeason (of_franchise f list),
    (f, λ p. count-by_season p (of_franchise f list) ∙ count-of_franchise p f list),
  ),
  each-IsFranchise list fs,
)

-- Grouping a list by its franchises loses and repeats no entry: any test passes as often in all
-- groups together as on the list. Each group has exactly the entries of one franchise, in the order
-- of their seasons.
pub groups_partition :
    (list : MalList)
    → ((p : ListEntry → Bool) → count_all p (groups list) ≡ count p list)
      × All (IsFranchise list) (groups list)
unfolding groups
groups_partition list = (
  λ p. counted p list (franchises list) ∙ once p (franchises list) list (listed_once list),
  each-IsFranchise list (franchises list),
)
