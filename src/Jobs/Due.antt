-- ===== src/Jobs/Due.antt =====
-- The queries of the queue (core/crates/genrl-core/src/jobs/queries.rs). SQLite orders rows of one
-- time as it likes, here as they stand.
pub mod Laws
use genrl_downloader.Prelude.{
  ℕ, zero, suc, ◌+◌, Bool, true, false, not, ◌&&◌, ◌||◌, Option, none, some, List, [], ◌∷◌, ◌==◌,
  leb, is_some, if◌then◌else◌,
}
use genrl_downloader.Models.JobState.{JobState, state_eq, is_active}
use genrl_downloader.Models.JobState
use genrl_downloader.Models.JobKind.{JobKind, kind_eq}
use genrl_downloader.Jobs.{Job, Torrent, Db, update_job}

unfoldable pub keep_if : (Job → Bool) → List Job → List Job
keep_if p [] = []
keep_if p (j ∷ js) = let rest = keep_if p js in if p j then j ∷ rest else rest

insert_oldest : Job → List Job → List Job
insert_oldest j [] = j ∷ []
insert_oldest j (k ∷ ks) =
    if leb j.created_at k.created_at then j ∷ k ∷ ks else k ∷ insert_oldest j ks

-- `ORDER BY created_at`
oldest_first : List Job → List Job
unfolding insert_oldest
oldest_first [] = []
oldest_first (j ∷ js) = insert_oldest j (oldest_first js)

limit_to : ℕ → List Job → List Job
limit_to zero js = []
limit_to (suc n) [] = []
limit_to (suc n) (j ∷ js) = j ∷ limit_to n js

has_kind : List JobKind → JobKind → Bool
has_kind [] k = false
has_kind (k' ∷ ks) k = kind_eq k' k || has_kind ks k

-- No kinds is no filter.
wants_kind : List JobKind → JobKind → Bool
unfolding has_kind
wants_kind [] k = true
wants_kind (k' ∷ ks) k = has_kind (k' ∷ ks) k

waits_since : ℕ → Option ℕ → Bool
waits_since now none = true
waits_since now (some at) = leb at now

-- `state NOT IN ('blocked', 'needs_input', 'failed', 'done')`
runnable : JobState → Bool
runnable JobState.blocked = false
runnable JobState.needs_input = false
runnable JobState.failed = false
runnable JobState.done = false
runnable _ = true

unfoldable pub is_due : ℕ → List JobKind → Job → Bool
unfolding wants_kind waits_since runnable
is_due now kinds j = waits_since now j.next_run_at && wants_kind kinds j.kind && runnable j.state

-- Jobs that may run now, oldest first.
unfoldable pub due_jobs : Db → ℕ → List JobKind → ℕ → List Job
unfolding oldest_first limit_to keep_if
due_jobs db now kinds limit = limit_to limit (oldest_first (keep_if (is_due now kinds) db.jobs))

unfoldable pub non_terminal_jobs : Db → List Job
unfolding keep_if
non_terminal_jobs db = keep_if (λ j. not (state_eq j.state JobState.done)) db.jobs

-- `list`: the jobs in one state, or all, oldest first.
unfoldable pub list_jobs : Db → Option JobState → ℕ → List Job
unfolding oldest_first limit_to keep_if
list_jobs db none limit = limit_to limit (oldest_first db.jobs)
list_jobs db (some s) limit =
    limit_to limit (oldest_first (keep_if (λ j. state_eq j.state s) db.jobs))

counts : ℕ → Torrent → Bool
counts since t = is_some t.mal_id && not t.rejected && leb since t.found_at

added : ℕ → List Torrent → ℕ
unfolding counts
added since [] = 0
added since (t ∷ ts) = let n = added since ts in if counts since t then suc n else n

-- Torrents found for a show since a time and not rejected, for the daily cap.
unfoldable pub added_since : Db → ℕ → ℕ
unfolding added
added_since db since = added since db.torrents

unfoldable pub note_progress : Db → ℕ → ℕ → ℕ → Bool → Db
unfolding update_job
note_progress db now id progress moved = record db {
  jobs =
      update_job id
        (λ j. record j {
          progress = progress;
          last_progress_at = if moved then some now else j.last_progress_at;
        })
        db.jobs;
}
