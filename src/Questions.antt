-- ===== src/Questions.antt =====
-- The Inbox's data (core/crates/genrl-core/src/questions/choice.rs and questions/payload.rs).
-- A payload and an answer are stored as JSON, which reads back as it was written: the rows hold
-- the values. A fraction is a number in a scale of its own.
pub mod Store
mod Tests
use genrl_downloader.Prelude.{ℕ, Bool, Option, List}
use genrl_downloader.Text.{Text}
use genrl_downloader.Models.Shows.{QuestionKind}
use genrl_downloader.Models.Shows

pub record ExpectedShow : Type 0 where
  pub mal_id : ℕ
  pub title : Text
  pub english_title : Option Text
  pub year : Option ℕ

pub record MatchOption : Type 0 where
  pub info_hash : Text
  pub name : Text
  pub magnet : Text
  pub group : Option Text
  pub resolution : Option Text
  pub seeders : ℕ
  pub size_bytes : ℕ
  pub signal : ℕ
  pub ranking : ℕ
  pub title_ratio : ℕ
  pub why : List Text

pub data Payload : Type 0 where
  -- expected, options, reason
  match_review : ExpectedShow → List MatchOption → Text → Payload
  -- seeders, release, magnet, auto_list
  low_seeds : ℕ → Text → Text → Bool → Payload
  -- episode, existing, candidate
  file_exists : ℕ → Text → Text → Payload
  -- release, seeders
  batch_only : Text → ℕ → Payload
  -- free_gb, floor_gb
  disk_space : ℕ → ℕ → Payload
  -- candidates_tried
  all_failed : ℕ → Payload
  -- mal_id, title, detail
  entry_changed : ℕ → Text → Text → Payload
  -- service, detail
  service_notice : Text → Text → Payload

unfoldable pub kind : Payload → QuestionKind
kind (match_review _ _ _) = Shows.match_review
kind (low_seeds _ _ _ _) = Shows.low_seeds
kind (file_exists _ _ _) = Shows.file_exists
kind (batch_only _ _) = Shows.batch_only
kind (disk_space _ _) = Shows.disk_space
kind (all_failed _) = Shows.all_failed
kind (entry_changed _ _ _) = Shows.entry_changed
kind (service_notice _ _) = Shows.service_notice

pub data Choice : Type 0 where
  use_this : Text → Choice
  none_of_these search_again wrong_release : Choice
  alias : Text → Choice
  download wait pick_another keep replace keep_both batch wait_for_singles pause change_folder :
      Choice
  retry_later manual_search skip_episode expired : Choice

pub record Answer : Type 0 where
  pub choice : Choice
  pub always : Bool

-- A row of the table `questions`.
pub record Question : Type 0 where
  pub id : ℕ
  pub job_id : Option ℕ
  pub mal_id : Option ℕ
  pub kind : QuestionKind
  pub payload : Payload
  pub answer : Option Answer
  pub created_at : ℕ
  pub expires_at : Option ℕ
