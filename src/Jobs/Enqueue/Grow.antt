-- ===== src/Jobs/Enqueue/Grow.antt =====
-- Enqueueing an episode only adds a row.
use genrl_downloader.Prelude.{
  ℕ, ◌≤◌, ◌≡◌, refl, sym, Option, none, some, List, [], ◌∷◌, ◌++◌, arith, All, All-append, length,
  length-append, ◌+◌, ap, ◌∙◌,
}
use mathlib.Core.List.{append-nil, append_assoc}
use genrl_downloader.Models.JobState.{search}
use genrl_downloader.Jobs.{Job, Db, find_episode}
use genrl_downloader.Jobs.Enqueue.{existing, new_job, insert_job, enqueue_new, enqueue_search}

-- Rows were only added, at most `n` of them, each a job in `search`.
abbrev pub Grown : ℕ → List Job → List Job → Type 0
Grown n jobs jobs' =
    (new : List Job) × (jobs' ≡ jobs ++ new) × (length new ≤ n) × All (λ j. j.state ≡ search) new

pub Grown-refl : (n : ℕ) (jobs : List Job) → Grown n jobs jobs
Grown-refl n jobs = ([], sym (append-nil jobs), omega arith, tt)

pub Grown-trans : (m n : ℕ) (a b c : List Job) → Grown m a b → Grown n b c → Grown (m + n) a c
Grown-trans m n a b c (xs, e, k, p) (ys, f, l, q) = (
  xs ++ ys,
  f ∙ ap (λ r. r ++ ys) e ∙ append_assoc a xs ys,
  omega (arith, length-append xs ys),
  All-append (λ j. j.state ≡ search) xs ys p q,
)

pub Grown-le : (m n : ℕ) (a b : List Job) → m ≤ n → Grown m a b → Grown n a b
Grown-le m n a b h (xs, e, k, p) = (xs, e, omega arith, p)

insert_grows :
    (d : Db) (now ep : ℕ) (found : Option ℕ) → Grown 1 d.jobs (insert_job d now ep found).1.jobs
unfolding insert_job new_job
insert_grows d now ep none = Grown-refl 1 d.jobs
insert_grows d now ep (some mal_id) = (new_job d now ep ∷ [], refl, omega arith, (refl, tt))

new_grows :
    (d : Db) (now ep : ℕ) (found : Option ℕ) → Grown 1 d.jobs (enqueue_new d now ep found).1.jobs
unfolding enqueue_new
new_grows d now ep (some id) = Grown-refl 1 d.jobs
new_grows d now ep none = insert_grows d now ep (find_episode ep d.episodes)

pub enqueue_search_grows : (d : Db) (now ep : ℕ) → Grown 1 d.jobs (enqueue_search d now ep).1.jobs
unfolding enqueue_search
enqueue_search_grows d now ep = new_grows d now ep (existing ep d.jobs)

insert-episodes :
    (d : Db) (now ep : ℕ) (found : Option ℕ) → (insert_job d now ep found).1.episodes ≡ d.episodes
unfolding insert_job
insert-episodes d now ep none = refl
insert-episodes d now ep (some mal_id) = refl

new-episodes :
    (d : Db) (now ep : ℕ) (found : Option ℕ) → (enqueue_new d now ep found).1.episodes ≡ d.episodes
unfolding enqueue_new
new-episodes d now ep (some id) = refl
new-episodes d now ep none = insert-episodes d now ep (find_episode ep d.episodes)

pub enqueue_search-episodes :
    (d : Db) (now ep : ℕ) → (enqueue_search d now ep).1.episodes ≡ d.episodes
unfolding enqueue_search
enqueue_search-episodes d now ep = new-episodes d now ep (existing ep d.jobs)
