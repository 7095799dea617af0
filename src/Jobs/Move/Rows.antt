-- ===== src/Jobs/Move/Rows.antt =====
-- Lookups after an UPDATE.
use genrl_downloader.Prelude.{
  ℕ, ◌≡◌, ◌≢◌, none, some, List, [], ◌∷◌, ◌==◌, if◌then◌else◌, arith, All, Bool-cases, ==_iff, inl,
  inr,
}
use genrl_downloader.Jobs.{Job, find_job, update_job}

-- An update that keeps the id shows in the lookup of that id, and in no other.
pub find-update :
    (id i : ℕ) (f : Job → Job) (js : List Job)
    → ((j : Job) → (f j).id ≡ j.id)
    → find_job i (update_job id f js) ≡ (
        if i == id
        then elim (find_job i js) [ none ↦ none | some j ↦ some (f j) ]
        else find_job i js)
unfolding find_job update_job
find-update id i f [] keep = ground arith
find-update id i f (j ∷ js) keep = ground (arith, keep j, find-update id i f js keep)

pub find_update_self :
    (id : ℕ) (f : Job → Job) (js : List Job) {j : Job}
    → ((r : Job) → (f r).id ≡ r.id)
    → find_job id js ≡ some j
    → find_job id (update_job id f js) ≡ some (f j)
find_update_self id f js {j} keep e = ground (arith, find-update id id f js keep)

pub find_update_other :
    (id i : ℕ) (f : Job → Job) (js : List Job)
    → ((r : Job) → (f r).id ≡ r.id)
    → i ≢ id
    → find_job i (update_job id f js) ≡ find_job i js
find_update_other id i f js keep e = ground (arith, find-update id i f js keep)

-- A predicate that the update keeps holds of every row after it.
pub All-update {ℓ} :
    (P : Job → Type ℓ) (id : ℕ) (f : Job → Job) (js : List Job)
    → ((j : Job) → j.id ≡ id → P j → P (f j))
    → All P js
    → All P (update_job id f js)
unfolding update_job
All-update P id f [] keep h = tt
All-update P id f (j ∷ js) keep h = elim (Bool-cases (j.id == id)) [
  | inl e ↦ rw e (keep j ((==_iff j.id id).0 e) h.0, All-update P id f js keep h.1)
  | inr e ↦ rw e (h.0, All-update P id f js keep h.1)
]
