-- ===== src/Jobs/Due/Laws.antt =====
-- What `due_jobs` returns.
use mathlib.Core.List.{Perm}
use mathlib.Core.List.Perm
use genrl_downloader.Prelude.{
  ap, All-map, ℕ, zero, suc, ◌≤◌, ◌≡◌, refl, Bool, true, ◌⊎◌, inl, inr, Option, none, some, List,
  [], ◌∷◌, arith, length, All, Bool-cases, leb,
}
use genrl_downloader.Models.JobState.{is_active}
use genrl_downloader.Models.JobKind.{JobKind}
use genrl_downloader.Jobs.{Job, Db}
use genrl_downloader.Jobs.Due.{
  keep_if, insert_oldest, oldest_first, limit_to, is_due, due_jobs, waits_since, has_kind,
}

-- Oldest first, with nothing before `since`.
abbrev pub Aging : ℕ → List Job → Type 0
Aging since [] = Unit
Aging since (j ∷ js) = (since ≤ j.created_at) × Aging j.created_at js

insert-Aging :
    (since : ℕ) (j : Job) (js : List Job)
    → since ≤ j.created_at
    → Aging since js
    → Aging since (insert_oldest j js)
unfolding insert_oldest
insert-Aging since j [] h a = (h, tt)
insert-Aging since j (k ∷ ks) h a = ground (arith, insert-Aging k.created_at j ks)

oldest_first-Aging : (js : List Job) → Aging 0 (oldest_first js)
unfolding oldest_first
oldest_first-Aging [] = tt
oldest_first-Aging (j ∷ js) =
    insert-Aging 0 j (oldest_first js) (omega arith) (oldest_first-Aging js)

limit-Aging : (n since : ℕ) (js : List Job) → Aging since js → Aging since (limit_to n js)
unfolding limit_to
limit-Aging zero since js a = tt
limit-Aging (suc n) since [] a = tt
limit-Aging (suc n) since (j ∷ js) a = (a.0, limit-Aging n j.created_at js a.1)

insert-All {ℓ} :
    (P : Job → Type ℓ) (j : Job) (js : List Job) → P j → All P js → All P (insert_oldest j js)
unfolding insert_oldest
insert-All P j [] h a = (h, tt)
insert-All P j (k ∷ ks) h a = elim (Bool-cases (leb j.created_at k.created_at)) [
  | inl e ↦ rw e (h, a)
  | inr e ↦ rw e (a.0, insert-All P j ks h a.1)
]

sort-All {ℓ} : (P : Job → Type ℓ) (js : List Job) → All P js → All P (oldest_first js)
unfolding oldest_first
sort-All P [] h = tt
sort-All P (j ∷ js) h = insert-All P j (oldest_first js) h.0 (sort-All P js h.1)

limit-All {ℓ} : (P : Job → Type ℓ) (n : ℕ) (js : List Job) → All P js → All P (limit_to n js)
unfolding limit_to
limit-All P zero js h = tt
limit-All P (suc n) [] h = tt
limit-All P (suc n) (j ∷ js) h = (h.0, limit-All P n js h.1)

keep-All : (p : Job → Bool) (js : List Job) → All (λ j. p j ≡ true) (keep_if p js)
unfolding keep_if
keep-All p [] = tt
keep-All p (j ∷ js) = elim (Bool-cases (p j)) [
  | inl e ↦ rw e (e, keep-All p js)
  | inr e ↦ rw e (keep-All p js)
]

length-limit : (n : ℕ) (js : List Job) → length (limit_to n js) ≤ n
unfolding limit_to
length-limit zero js = omega arith
length-limit (suc n) [] = omega arith
length-limit (suc n) (j ∷ js) = omega (arith, length-limit n js)

limit_all : (n : ℕ) (js : List Job) → length js ≤ n → limit_to n js ≡ js
unfolding limit_to
limit_all zero [] h = refl
limit_all zero (j ∷ js) h = absurd (omega arith)
limit_all (suc n) [] h = refl
limit_all (suc n) (j ∷ js) h = ap (◌∷◌ j) (limit_all n js (omega arith))

insert_oldest-perm : (j : Job) (js : List Job) → Perm (insert_oldest j js) (j ∷ js)
unfolding insert_oldest
insert_oldest-perm j [] = Perm.refl (j ∷ [])
insert_oldest-perm j (k ∷ ks) = elim (Bool-cases (leb j.created_at k.created_at)) [
  | inl e ↦ rw e (Perm.refl (j ∷ k ∷ ks))
  | inr e ↦ rw e (Perm.trans (Perm.cons k (insert_oldest-perm j ks)) (Perm.swap j k ks))
]

oldest_first-perm : (js : List Job) → Perm (oldest_first js) js
unfolding oldest_first
oldest_first-perm [] = Perm.refl []
oldest_first-perm (j ∷ js) =
    Perm.trans (insert_oldest-perm j (oldest_first js)) (Perm.cons j (oldest_first-perm js))

length-insert_oldest : (j : Job) (js : List Job) → length (insert_oldest j js) ≡ suc (length js)
unfolding insert_oldest
length-insert_oldest j [] = refl
length-insert_oldest j (k ∷ ks) = ground (arith, length-insert_oldest j ks)

length-oldest_first : (js : List Job) → length (oldest_first js) ≡ length js
unfolding oldest_first
length-oldest_first [] = refl
length-oldest_first (j ∷ js) =
    omega (arith, length-insert_oldest j (oldest_first js), length-oldest_first js)

-- The row may run: it is in a main step and its time has come, and its kind is wanted if the list
-- of kinds is one kind.
abbrev pub MayRun : ℕ → JobKind → Job → Type 0
MayRun now kind j =
    (is_active j.state ≡ true)
    × ((j.next_run_at ≡ none) ⊎ ((at : ℕ) × (j.next_run_at ≡ some at) × (at ≤ now)))
    × (j.kind ≡ kind)

may_run : (now : ℕ) (kind : JobKind) (j : Job) → is_due now (kind ∷ []) j ≡ true → MayRun now kind j
unfolding is_due
may_run now kind j h =
    (ground arith, waits (j.next_run_at) (ground arith), kinds kind j.kind (ground arith))
  where
    waits :
        (o : Option ℕ)
        → waits_since now o ≡ true
        → (o ≡ none) ⊎ ((at : ℕ) × (o ≡ some at) × (at ≤ now))
    waits none h = inl refl
    waits (some at) h = inr (at, refl, ground arith)

    kinds : (a b : JobKind) → has_kind (a ∷ []) b ≡ true → b ≡ a
    kinds JobKind.search b h = ground arith
    kinds _ b h = ground arith

-- For one kind, `due_jobs` returns only rows of that kind in a main step whose time has come, at
-- most `limit` of them and oldest first; and if the due rows are not more than `limit`, it returns
-- all of them.
pub due_jobs_correct :
    (db : Db) (now limit : ℕ) (kind : JobKind)
    → let due = due_jobs db now (kind ∷ []) limit in
      let all = keep_if (is_due now (kind ∷ [])) db.jobs in
      All (MayRun now kind) due
      × (length due ≤ limit)
      × Aging 0 due
      × (length all ≤ limit → Perm due all)
unfolding due_jobs
due_jobs_correct db now limit kind =
    let all = keep_if (is_due now (kind ∷ [])) db.jobs in
    (
      limit-All (MayRun now kind) limit (oldest_first all) (
          sort-All (MayRun now kind) all
            (All-map (λ j. may_run now kind j) all (keep-All (is_due now (kind ∷ [])) db.jobs))),
      length-limit limit (oldest_first all),
      limit-Aging limit 0 (oldest_first all) (oldest_first-Aging all),
      λ h.
          rw (limit_all limit (oldest_first all) (omega (arith, length-oldest_first all, h)))
            (oldest_first-perm all),
    )
