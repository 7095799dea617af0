-- ===== src/Jobs/Sample.antt =====
-- A small queue with one job, for the tests.
use genrl_downloader.Prelude.{◌≡◌, refl, true, false, none, some, [], ◌∷◌}
use genrl_downloader.Text.{Text, codes}
use genrl_downloader.Models.JobState.{JobState}
use genrl_downloader.Models.JobKind.{JobKind}
use genrl_downloader.Models.Shows.{ShowType}
use genrl_downloader.Season.{pos}
use genrl_downloader.Jobs.{Job, Show, Episode, Db, find_job, missing}

abbrev pub adding : Job
adding = record {
  id = 7;
  episode_id = 3;
  kind = JobKind.add;
  state = JobState.add;
  attempts = 1;
  next_run_at = none;
  last_error = none;
  torrent_id = some 2;
  created_at = 10;
  updated_at = 20;
  progress = 0;
  last_progress_at = none;
  blocked_from = none;
}

abbrev pub show : Show
show = record {
  mal_id = 21;
  title = codes "Show";
  english_title = none;
  show_type = ShowType.tv;
  status = some (codes "finished");
  total_episodes = some 12;
  start_year = none;
  auto = false;
  episode_offset = pos 0;
  season = 1;
  metadata_status = codes "ready";
}

abbrev pub fifth : Episode
fifth = record {
  id = 3;
  mal_id = 21;
  number = 50;
  state = missing;
  file_path = none;
  size = none;
  torrent_id = none;
  last_checked = none;
}

abbrev pub queue : Db
queue = record {
  jobs = adding ∷ [];
  torrents = [];
  shows = show ∷ [];
  mal_entries = [];
  episodes = fifth ∷ [];
  next_episode = 4;
  events = [];
  next_job = 8;
  next_torrent = 1;
  questions = [];
  next_question = 1;
  names = [];
  rules = [];
  automation_on = true;
}

abbrev pub why : Text
why = codes "torrent found"

pub found : find_job 7 queue.jobs ≡ some adding
unfolding find_job
found = refl
