-- ===== src/Jobs/Enqueue.antt =====
-- Putting episodes and candidates into the database (core/crates/genrl-core/src/jobs/enqueue.rs).
-- `enqueue_search` reads and then writes in a transaction of its own; nobody writes between the two.
pub mod Twice
pub mod Grow
pub mod Candidates
mod Tests
use genrl_downloader.Prelude.{
  ℕ, ◌+◌, Bool, true, false, not, ◌&&◌, Option, none, some, List, [], ◌∷◌, ◌++◌, ◌==◌,
  if◌then◌else◌,
}
use genrl_downloader.Text.{Text, text_eq}
use genrl_downloader.Error.{Error, Result, ok, err, other, db}
use genrl_downloader.Text.{codes}
use genrl_downloader.Models.JobState.{JobState, state_eq}
use genrl_downloader.Models.JobState
use genrl_downloader.Models.JobKind.{JobKind, kind_eq}
use genrl_downloader.Models.JobKind
use genrl_downloader.Jobs.{Job, Torrent, Episode, Db, queued, record_in, find_episode}

-- `kind = 'search' AND state != 'done'`, for the episode.
covers : ℕ → Job → Bool
covers episode_id j =
    j.episode_id == episode_id
    && kind_eq j.kind JobKind.search
    && not (state_eq j.state JobState.done)

-- `ORDER BY id LIMIT 1`, over rows that stand in the order of their ids.
pub existing : ℕ → List Job → Option ℕ
unfolding covers
existing episode_id [] = none
existing episode_id (j ∷ js) = if covers episode_id j then some j.id else existing episode_id js

new_job : Db → ℕ → ℕ → Job
new_job d now episode_id = record {
  id = d.next_job;
  episode_id = episode_id;
  kind = JobKind.search;
  state = JobState.search;
  attempts = 0;
  next_run_at = none;
  last_error = none;
  torrent_id = none;
  created_at = now;
  updated_at = now;
  progress = 0;
  last_progress_at = none;
  blocked_from = none;
}

-- The INSERT and its log line; an episode that is not there fails the transaction.
insert_job : Db → ℕ → ℕ → Option ℕ → Result ℕ × Db
unfolding new_job record_in
insert_job d now episode_id none = (err (db (codes "Query returned no rows")), d)
insert_job d now episode_id (some mal_id) = (
  ok d.next_job,
  record_in
      (record {
        at = now;
        job_id = some d.next_job;
        mal_id = some mal_id;
        message = queued d.next_job episode_id;
      })
      (record d { jobs = d.jobs ++ new_job d now episode_id ∷ []; next_job = d.next_job + 1 }),
)

enqueue_new : Db → ℕ → ℕ → Option ℕ → Result ℕ × Db
unfolding insert_job find_episode
enqueue_new d now episode_id (some id) = (ok id, d)
enqueue_new d now episode_id none = insert_job d now episode_id (find_episode episode_id d.episodes)

-- Create the job that fetches an episode, or return the one that covers it.
unfoldable pub enqueue_search : Db → ℕ → ℕ → Result ℕ × Db
unfolding enqueue_new existing
enqueue_search d now episode_id = enqueue_new d now episode_id (existing episode_id d.jobs)

-- What the search step remembers about a candidate; the score stands in a scale of its own.
pub record RememberedCandidate : Type 0 where
  pub info_hash : Text
  pub name : Text
  pub magnet : Text
  pub seeders : ℕ
  pub leechers : ℕ
  pub size_bytes : ℕ
  pub group : Option Text
  pub resolution : Option Text
  pub source_url : Option Text
  pub score : ℕ
  pub mal_id : Option ℕ

inserted : ℕ → ℕ → RememberedCandidate → Torrent
inserted id now c = record {
  id = id;
  info_hash = c.info_hash;
  name = c.name;
  magnet = c.magnet;
  seeders = c.seeders;
  leechers = c.leechers;
  size_bytes = c.size_bytes;
  group = c.group;
  resolution = c.resolution;
  source_url = c.source_url;
  score = c.score;
  mal_id = c.mal_id;
  found_at = now;
  rejected = false;
}

-- `ON CONFLICT (info_hash) DO UPDATE`
refreshed : RememberedCandidate → Torrent → Torrent
refreshed c t = record t {
  seeders = c.seeders;
  leechers = c.leechers;
  size_bytes = c.size_bytes;
  score = c.score;
  mal_id = c.mal_id;
}

unfoldable pub find_torrent : Text → List Torrent → Option Torrent
find_torrent hash [] = none
find_torrent hash (t ∷ ts) = if text_eq t.info_hash hash then some t else find_torrent hash ts

upsert : ℕ → ℕ → RememberedCandidate → List Torrent → List Torrent
unfolding inserted refreshed
upsert id now c [] = inserted id now c ∷ []
upsert id now c (t ∷ ts) =
    if text_eq t.info_hash c.info_hash then refreshed c t ∷ ts else t ∷ upsert id now c ts

-- Remember a candidate, or refresh the row of its info hash; the id of that row.
unfoldable pub remember_candidate : Db → ℕ → RememberedCandidate → ℕ × Db
unfolding upsert find_torrent
remember_candidate d now c = elim (find_torrent c.info_hash d.torrents) [
  | none ↦ (
    d.next_torrent,
    record d {
      torrents = upsert d.next_torrent now c d.torrents;
      next_torrent = d.next_torrent + 1;
    },
  )
  | some t ↦ (t.id, record d { torrents = upsert d.next_torrent now c d.torrents })
]

mark_rejected : Text → List Torrent → List Torrent × Bool
mark_rejected hash [] = ([], false)
mark_rejected hash (t ∷ ts) =
    let (ts', changed) = mark_rejected hash ts in
    if text_eq t.info_hash hash
    then (record t { rejected = true } ∷ ts', true)
    else (t ∷ ts', changed)

-- Mark a candidate tried; whether there was one.
unfoldable pub reject_candidate : Db → Text → Bool × Db
unfolding mark_rejected
reject_candidate d hash =
    let (ts, changed) = mark_rejected hash d.torrents in (changed, record d { torrents = ts })
