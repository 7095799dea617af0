-- ===== src/Worker/Inbox.antt =====
-- Applying an answer (core/crates/genrl-core/src/worker/inbox.rs). An early `?` keeps what was
-- written before it. The stored settings load and save without an error.
pub mod Resolve
pub mod Act
pub mod Laws
pub mod Wait
pub mod Answered
use genrl_downloader.Prelude.{
  ℕ, ◌+◌, Bool, true, false, not, ◌&&◌, ◌||◌, Option, none, some, List, [], ◌∷◌, ◌++◌, ◌==◌,
  if◌then◌else◌, min,
}
use genrl_downloader.Text.{Text, codes, text_eq, folded, trim}
use genrl_downloader.Error.{Error, Result, ok, err, other}
use genrl_downloader.Error
use genrl_downloader.Models.JobState.{JobState, state_eq}
use genrl_downloader.Filename.Normalize.{Chars, is_empty}
use genrl_downloader.Names.{user}
use genrl_downloader.Names
use genrl_downloader.Rules.{set_override}
use genrl_downloader.Questions.{
  MatchOption, Payload, match_review, Choice, use_this, none_of_these, search_again, wrong_release,
  alias, download, wait, pick_another, keep, replace, keep_both, batch, wait_for_singles, pause,
  change_folder, retry_later, manual_search, skip_episode, expired, Answer, Question,
}
use genrl_downloader.Questions.Store.{concerns, is_unanswered, filter, set_answer}
use genrl_downloader.Jobs.{Job, Db, find_job, update_job}
use genrl_downloader.Jobs.Diagram.{is_allowed}
use genrl_downloader.Jobs.Enqueue.{find_torrent}
use genrl_downloader.Jobs.Move.{MoveOptions, default, transition, reschedule}
use genrl_downloader.Worker.Episodes.{find_row, mark_done}

-- What the answer needs from outside: the operations on text, the JSON of a list of groups, and the
-- length of a file.
pub record Outside : Type 0 where
  pub chars : Chars
  pub groups_json : List Text → Text
  pub file_size : Text → Option ℕ

unfoldable pub answer_label : Choice → Text
answer_label (use_this _) = codes "use this one"
answer_label none_of_these = codes "none of these"
answer_label search_again = codes "search again"
answer_label (alias name) = codes "alias " ++ name
answer_label download = codes "download anyway"
answer_label wait = codes "wait 24 h"
answer_label pick_another = codes "pick another"
answer_label keep = codes "keep what is on disk"
answer_label replace = codes "replace"
answer_label keep_both = codes "keep both"
answer_label batch = codes "take the batch"
answer_label wait_for_singles = codes "wait for singles"
answer_label pause = codes "pause the queue"
answer_label change_folder = codes "choose another folder"
answer_label retry_later = codes "retry later"
answer_label manual_search = codes "manual search"
answer_label wrong_release = codes "wrong release"
answer_label skip_episode = codes "skip this episode"
answer_label expired = codes "expired"

-- The attempts as a `u32`.
unfoldable pub tried : ℕ → ℕ
tried attempts = min attempts 4294967295

unfoldable pub names_alias : Outside → ℕ → Text → Db → Db
unfolding Names.add
names_alias outside mal_id name db = record db {
  names = (Names.add outside.chars mal_id name user 9 db.names).1;
}

unfoldable pub alias_of_show : Outside → Option ℕ → Text → Db → Db
unfolding names_alias
alias_of_show outside none name db = db
alias_of_show outside (some mal_id) name db = names_alias outside mal_id name db

-- The id that `SELECT id FROM torrents WHERE info_hash = ?2` gives.
unfoldable pub torrent_id_of : Text → Db → Option ℕ
unfolding find_torrent
torrent_id_of hash db = elim (find_torrent hash db.torrents) [ none ↦ none | some t ↦ some t.id ]

unfoldable pub set_torrent : ℕ → Text → Db → Db
unfolding update_job torrent_id_of
set_torrent id hash db = record db {
  jobs = update_job id (λ r. record r { torrent_id = torrent_id_of hash db }) db.jobs;
}
