-- ===== src/Score/Order.antt =====
-- The order of the ranking (core/crates/genrl-core/src/matching/decide.rs, `rank`).
use genrl_downloader.Prelude.{
  ℕ, zero, suc, ◌+◌, ◌≤◌, true, false, ◌≡◌, refl, sym, ap, subst, inl, inr, ◌⊎◌, ◌++◌, Bool,
  if◌then◌else◌, List, [], ◌∷◌, length, All, Bool-cases, arith,
}
use genrl_downloader.Text.{Text}
use genrl_downloader.Rules.{Rules}
use genrl_downloader.Score.{Candidate, Target, Rejection, Settings, Scored, Points, less, total}
use genrl_downloader.Score.Signal.{Scale}
use genrl_downloader.Score.Evaluate.{evaluate, Ranked, insert_best, truncate, placed, passing, rank}

-- Each total is not above the one before it, the first not above `p`.
abbrev pub FallsFrom : Points → List Ranked → Type 0
FallsFrom p [] = Unit
FallsFrom p (r ∷ rs) = (less p (total r.scored) ≡ false) × FallsFrom (total r.scored) rs

abbrev pub IsFalling : List Ranked → Type 0
IsFalling [] = Unit
IsFalling (r ∷ rs) = FallsFrom (total r.scored) rs

less_asym : (p q : Points) → less p q ≡ true → less q p ≡ false
unfolding less
less_asym p q h = ground (arith, h)

insert-FallsFrom :
    (p : Points) (r : Ranked) (xs : List Ranked)
    → FallsFrom p xs
    → less p (total r.scored) ≡ false
    → FallsFrom p (insert_best r xs)
unfolding insert_best
insert-FallsFrom p r [] h k = (k, tt)
insert-FallsFrom p r (x ∷ xs) h k = elim (Bool-cases (less (total r.scored) (total x.scored))) [
  | inl worse ↦ rw (worse) (
    h.0,
    insert-FallsFrom (total x.scored) r xs h.1 (less_asym (total r.scored) (total x.scored) worse),
  )
  | inr better ↦ rw (better) (k, (better, h.1))
]

insert-IsFalling : (r : Ranked) (xs : List Ranked) → IsFalling xs → IsFalling (insert_best r xs)
unfolding insert_best
insert-IsFalling r [] h = tt
insert-IsFalling r (x ∷ xs) h = elim (Bool-cases (less (total r.scored) (total x.scored))) [
  | inl worse ↦
      rw (worse) (
        insert-FallsFrom (total x.scored) r xs h
          (less_asym (total r.scored) (total x.scored) worse))
  | inr better ↦ rw (better) (better, h)
]

insert-All :
    (P : Ranked → Type 0) (r : Ranked) (xs : List Ranked)
    → P r
    → All P xs
    → All P (insert_best r xs)
unfolding insert_best
insert-All P r [] h k = (h, tt)
insert-All P r (x ∷ xs) h k = elim (Bool-cases (less (total r.scored) (total x.scored))) [
  | inl worse ↦ rw (worse) (k.0, insert-All P r xs h k.1)
  | inr better ↦ rw (better) (h, k)
]

length-truncate : (n : ℕ) (rs : List Ranked) → length (truncate n rs) ≤ n
unfolding truncate
length-truncate zero rs = omega arith
length-truncate (suc n) [] = omega arith
length-truncate (suc n) (r ∷ rs) = omega (arith, length-truncate n rs)

-- What is cut off, and nothing is unless the list is full.
cut :
    (n : ℕ) (rs : List Ranked)
    → (rest : List Ranked) × (truncate n rs ++ rest ≡ rs)
      × ((rest ≡ []) ⊎ (length (truncate n rs) ≡ n))
unfolding truncate
cut zero rs = (rs, refl, inr refl)
cut (suc n) [] = ([], refl, inl refl)
cut (suc n) (r ∷ rs) =
    let (rest, same, end) = cut n rs in
    (
      rest,
      ap (λ xs. r ∷ xs) same,
      elim end [ inl nothing ↦ inl nothing | inr full ↦ inr (omega (arith, full)) ],
    )

-- How many pass a test.
abbrev pub count : (Ranked → Bool) → List Ranked → ℕ
count p [] = 0
count p (r ∷ rs) = (if p r then 1 else 0) + count p rs

count-insert :
    (p : Ranked → Bool) (r : Ranked) (xs : List Ranked)
    → count p (insert_best r xs) ≡ count p (r ∷ xs)
unfolding insert_best
count-insert p r [] = refl
count-insert p r (x ∷ xs) = elim (Bool-cases (less (total r.scored) (total x.scored))) [
  | inl worse ↦ rw (worse) (omega (arith, count-insert p r xs))
  | inr better ↦ rw (better) refl
]

abbrev pub with_passed : Candidate → Rejection ⊎ Scored → List Ranked → List Ranked
with_passed c (inl r) rest = rest
with_passed c (inr x) rest = record { candidate = c; scored = x } ∷ rest

abbrev pub with_failed :
    Candidate → Rejection ⊎ Scored → List (Text × Rejection) → List (Text × Rejection)
with_failed c (inl r) rest = (c.release.raw, r) ∷ rest
with_failed c (inr x) rest = rest

module _ (scale : Scale) (t : Target) (rules : Rules) (s : Settings) (now : ℕ) where
  -- The candidate passed the filters, with these scores.
  abbrev pub Passed : Ranked → Type 0
  Passed r = evaluate scale r.candidate t rules s now ≡ inr r.scored

  -- The candidates that pass, with their scores, as they come.
  abbrev pub accepted : List Candidate → List Ranked
  accepted [] = []
  accepted (c ∷ cs) = with_passed c (evaluate scale c t rules s now) (accepted cs)

  -- The names of the others, with the reasons, as they come.
  abbrev pub refused : List Candidate → List (Text × Rejection)
  refused [] = []
  refused (c ∷ cs) = with_failed c (evaluate scale c t rules s now) (refused cs)

  -- Sorted, passed, and the same rows as those that come in.
  abbrev Sorted : List Ranked → List Ranked → Type 0
  Sorted taken ranked =
      IsFalling ranked × All Passed ranked × ((p : Ranked → Bool) → count p ranked ≡ count p taken)

  insert-Sorted :
      (r : Ranked) (taken rest : List Ranked)
      → Passed r
      → Sorted taken rest
      → Sorted (r ∷ taken) (insert_best r rest)
  insert-Sorted r taken rest e (falls, all, same) = (
    insert-IsFalling r rest falls,
    insert-All Passed r rest e all,
    λ p. omega (arith, count-insert p r rest, same p),
  )

  placed-Sorted :
      (c : Candidate) (o : Rejection ⊎ Scored) (cs : List Candidate)
      (rest : List Ranked × List (Text × Rejection))
      → evaluate scale c t rules s now ≡ o
      → Sorted (accepted cs) rest.0 × (rest.1 ≡ refused cs)
      → Sorted (with_passed c o (accepted cs)) (placed c o rest).0
        × ((placed c o rest).1 ≡ with_failed c o (refused cs))
  unfolding placed
  placed-Sorted c (inl r) cs rest e (sorted, same) =
      (sorted, ap (λ rs. (c.release.raw, r) ∷ rs) same)
  placed-Sorted c (inr x) cs rest e (sorted, same) =
      (insert-Sorted (record { candidate = c; scored = x }) (accepted cs) rest.0 e sorted, same)

  passing-Sorted :
      (cs : List Candidate)
      → Sorted (accepted cs) (passing scale t rules s now cs).0
        × ((passing scale t rules s now cs).1 ≡ refused cs)
  unfolding passing
  passing-Sorted [] = ((tt, tt, λ p. refl), refl)
  passing-Sorted (c ∷ cs) =
      placed-Sorted c (evaluate scale c t rules s now) cs (passing scale t rules s now cs) refl
        (passing-Sorted cs)

-- The ranking is the start of a list that has exactly the candidates that pass the filters, each as
-- often as it comes and with its own scores, in an order where no total is above the one before it;
-- it has at most 20 of them, and leaves some out only if it has 20. The rejected ones are exactly
-- the others, by name and reason, as they come.
pub rank_sorted :
    (scale : Scale) (t : Target) (rules : Rules) (s : Settings) (now : ℕ) (cs : List Candidate)
    → let (ranked, rejected) = rank scale t rules s now cs in
      ((rest : List Ranked) × IsFalling (ranked ++ rest)
        × All (Passed scale t rules s now) (ranked ++ rest)
        × ((p : Ranked → Bool)
            → count p (ranked ++ rest) ≡ count p (accepted scale t rules s now cs))
        × ((rest ≡ []) ⊎ (length ranked ≡ 20)))
      × (length ranked ≤ 20)
      × (rejected ≡ refused scale t rules s now cs)
unfolding rank
rank_sorted scale t rules s now cs =
    let (sorted, names) = passing-Sorted scale t rules s now cs in
    let rs = (passing scale t rules s now cs).0 in
    let (rest, same, end) = cut 20 rs in
    let (falls, all, counts) =
      subst (Sorted scale t rules s now (accepted scale t rules s now cs)) (sym same) sorted in
    ((rest, falls, all, counts, end), length-truncate 20 rs, names)
