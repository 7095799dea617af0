-- ===== src/Jobs.antt =====
-- The work queue (core/crates/genrl-core/src/jobs): the tables `jobs`, `torrents`, `shows`,
-- `mal_entries`, `episodes`, `events`, `questions`, `show_names` and `rules` as lists of rows, a
-- transaction as a function on them. A row id is its primary key. Times are Unix seconds, which
-- `Clock::now` never gives below zero. The download progress is a number in millionths.
pub mod Diagram
pub mod Move
pub mod Enqueue
pub mod Due
pub mod Ladder
pub mod Sample
use genrl_downloader.Prelude.{
  ℕ, Bool, true, false, Option, none, some, List, [], ◌∷◌, ◌==◌, if◌then◌else◌,
}
use genrl_downloader.Text.{Text}
use genrl_downloader.Models.JobState.{JobState}
use genrl_downloader.Models.JobKind.{JobKind}
use genrl_downloader.Models.Shows.{ShowType}
use genrl_downloader.Season.{ℤ}
use genrl_downloader.Questions.{Question}
use genrl_downloader.Names.{NameRow}
use genrl_downloader.Rules.{RuleRow}

pub record Job : Type 0 where
  pub id : ℕ
  pub episode_id : ℕ
  pub kind : JobKind
  pub state : JobState
  pub attempts : ℕ
  pub next_run_at : Option ℕ
  pub last_error : Option Text
  pub torrent_id : Option ℕ
  pub created_at : ℕ
  pub updated_at : ℕ
  pub progress : ℕ
  pub last_progress_at : Option ℕ
  pub blocked_from : Option JobState

pub record Torrent : Type 0 where
  pub id : ℕ
  pub info_hash : Text
  pub name : Text
  pub magnet : Text
  pub seeders : ℕ
  pub leechers : ℕ
  pub size_bytes : ℕ
  pub group : Option Text
  pub resolution : Option Text
  pub source_url : Option Text
  pub score : ℕ
  pub mal_id : Option ℕ
  pub found_at : ℕ
  pub rejected : Bool

-- A row of `shows`. The metadata's status and the airing status are kept as the texts that they are.
pub record Show : Type 0 where
  pub mal_id : ℕ
  pub title : Text
  pub english_title : Option Text
  pub show_type : ShowType
  pub status : Option Text
  pub total_episodes : Option ℕ
  pub start_year : Option ℕ
  pub auto : Bool
  pub episode_offset : ℤ
  pub season : ℕ
  pub metadata_status : Text

-- A row of `mal_entries`; the status on the list is the text that it is.
pub record MalEntry : Type 0 where
  pub mal_id : ℕ
  pub list_status : Text
  pub watched_count : ℕ
  pub score : Option ℕ
  pub updated_at : ℕ

-- The column `state` of an episode.
pub data EpisodeState : Type 0 where
  missing queued downloading done failed : EpisodeState

pub record Episode : Type 0 where
  pub id : ℕ
  pub mal_id : ℕ
  pub number : ℕ  -- in tenths
  pub state : EpisodeState
  pub file_path : Option Text
  pub size : Option ℕ
  pub torrent_id : Option ℕ
  pub last_checked : Option ℕ

-- What a line of the Activity log says; the code formats it as text.
pub data Message : Type 0 where
  -- "job {id}: {from} → {to} ({reason})"
  moved : ℕ → JobState → JobState → Text → Message
  -- "job {id}: {reason}"
  noted : ℕ → Text → Message
  -- "queued search job {id} for episode …"
  queued : ℕ → ℕ → Message
  -- any other line: its text
  line : Text → Message

pub record Event : Type 0 where
  pub at : ℕ
  pub job_id : Option ℕ
  pub mal_id : Option ℕ
  pub message : Message

pub record Db : Type 0 where
  pub jobs : List Job
  pub torrents : List Torrent
  pub shows : List Show
  pub mal_entries : List MalEntry
  pub episodes : List Episode
  pub next_episode : ℕ
  pub events : List Event  -- newest first
  pub next_job : ℕ  -- AUTOINCREMENT
  pub next_torrent : ℕ
  pub questions : List Question  -- oldest first
  pub next_question : ℕ
  pub names : List NameRow
  pub rules : List RuleRow
  pub automation_on : Bool  -- of the settings, what this code changes

unfoldable pub find_job : ℕ → List Job → Option Job
find_job id [] = none
find_job id (j ∷ js) = if j.id == id then some j else find_job id js

-- `UPDATE jobs … WHERE id = ?1`
unfoldable pub update_job : ℕ → (Job → Job) → List Job → List Job
update_job id f [] = []
update_job id f (j ∷ js) = if j.id == id then f j ∷ update_job id f js else j ∷ update_job id f js

unfoldable pub find_episode : ℕ → List Episode → Option ℕ
find_episode id [] = none
find_episode id (e ∷ es) = if e.id == id then some e.mal_id else find_episode id es

-- The `mal_id` of a job's episode.
unfoldable pub mal_id_of : Db → Job → Option ℕ
unfolding find_episode
mal_id_of db j = find_episode j.episode_id db.episodes

unfoldable pub record_in : Event → Db → Db
record_in e db = record db { events = e ∷ db.events }
