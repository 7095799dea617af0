-- ===== src/Jobs/Enqueue/Twice.antt =====
-- Enqueueing an episode again.
use genrl_downloader.Prelude.{
  ℕ, ◌≡◌, refl, ◌≢◌, ◌<◌, ◌⊎◌, true, false, none, some, List, [], ◌∷◌, ◌++◌, arith, All,
}
use genrl_downloader.Error.{ok}
use genrl_downloader.Models.JobState.{JobState, done}
use genrl_downloader.Models.JobKind.{JobKind}
use genrl_downloader.Jobs.{Job, Db, find_job, find_episode}
use genrl_downloader.Jobs.Enqueue.{covers, existing, new_job, enqueue_search}

existing-append :
    (ep : ℕ) (js : List Job) (j : Job)
    → existing ep js ≡ none
    → covers ep j ≡ true
    → existing ep (js ++ j ∷ []) ≡ some j.id
unfolding existing
existing-append ep [] j e c = ground (arith, c)
existing-append ep (k ∷ js) j e c = ground (arith, existing-append ep js j, c)

fresh_one_counts : (d : Db) (now ep : ℕ) → covers ep (new_job d now ep) ≡ true
unfolding covers new_job
fresh_one_counts d now ep = ground arith

-- Enqueueing an episode right after it was enqueued returns the same job and changes nothing.
pub enqueue_search_twice :
    (d : Db) (now later ep id : ℕ)
    → (enqueue_search d now ep).0 ≡ ok id
    → let d' = (enqueue_search d now ep).1 in enqueue_search d' later ep ≡ (ok id, d')
unfolding enqueue_search
enqueue_search_twice d now later ep id h =
    ground (arith, existing-append ep d.jobs (new_job d now ep), fresh_one_counts d now ep)

-- No row of the episode is a search that is not done: each is past its search step, or done.
abbrev pub PastSearch : ℕ → Job → Type 0
PastSearch ep j = j.episode_id ≡ ep → (j.kind ≢ JobKind.search) ⊎ (j.state ≡ done)

not_covers : (ep : ℕ) (j : Job) → PastSearch ep j → covers ep j ≡ false
unfolding covers
not_covers ep j p = ground arith

existing-none : (ep : ℕ) (js : List Job) → All (PastSearch ep) js → existing ep js ≡ none
unfolding existing
existing-none ep [] h = refl
existing-none ep (j ∷ js) h = ground (arith, not_covers ep j h.0, existing-none ep js h.1)

find-append_old :
    (id : ℕ) (js : List Job) (new : Job) {j : Job}
    → find_job id js ≡ some j
    → find_job id (js ++ new ∷ []) ≡ some j
unfolding find_job
find-append_old id [] new {j} e = absurd (cc)
find-append_old id (k ∷ js) new {j} e = ground (arith, find-append_old id js new {j = j})

find-append_new :
    (js : List Job) (new : Job)
    → All (λ j. j.id < new.id) js
    → find_job new.id (js ++ new ∷ []) ≡ some new
unfolding find_job
find-append_new [] new h = ground arith
find-append_new (k ∷ js) new h = ground (arith, find-append_new js new h.1)

-- A job that has moved on from its search (to `add`, `monitor` or `finalize`) does not count as
-- covering its episode: enqueueing the episode then makes a second job for it, in state `search`,
-- beside the first, which is unchanged.
pub second_job :
    (d : Db) (now ep id mal : ℕ) (j : Job)
    → find_job id d.jobs ≡ some j
    → j.episode_id ≡ ep
    → j.state ≢ done
    → All (PastSearch ep) d.jobs
    → All (λ r. r.id < d.next_job) d.jobs
    → find_episode ep d.episodes ≡ some mal
    → let d' = (enqueue_search d now ep).1 in
      ((enqueue_search d now ep).0 ≡ ok d.next_job)
      × (find_job id d'.jobs ≡ some j)
      × ((j' : Job) × (find_job d.next_job d'.jobs ≡ some j')
          × (j'.episode_id ≡ ep)
          × (j'.state ≡ JobState.search))
unfolding enqueue_search
second_job d now ep id mal j e same running past fresh known =
    let nothing = existing-none ep d.jobs past in
    let new = new_job d now ep in
    (
      ground (arith, nothing, known),
      ground (arith, nothing, known, find-append_old id d.jobs new {j = j} e),
      (new, ground (arith, nothing, known, find-append_new d.jobs new fresh), refl, refl),
    )
