-- ===== src/Worker/Laws/Tests.antt =====
-- The steps of one job in a small queue (core/crates/genrl-core/src/worker).
use genrl_downloader.Prelude.{◌≡◌, refl, arith, true, false, none, some, [], ◌∷◌}
use genrl_downloader.Text.{codes}
use genrl_downloader.Error.{err, illegal_transition}
use genrl_downloader.Models.JobState.{JobState}
use genrl_downloader.Models.Shows.{ShowType}
use genrl_downloader.Rules
use genrl_downloader.Filename.{extract_season_from_title}
use genrl_downloader.Filename.Normalize.{dedup, normalize}
use genrl_downloader.Worker.Add.{approved}
use genrl_downloader.Names.{normalize_alias, NameSource, NameRow}
use genrl_downloader.Jobs.{Job, Torrent, Db, find_job}
use genrl_downloader.Jobs.Sample.{adding, show, queue, found}
use genrl_downloader.Planner.Apply.Single.{is_resolved}
use genrl_downloader.Worker.Sample.{world}
use genrl_downloader.Worker.World.{World, ChosenTorrent}
use genrl_downloader.Worker.Helpers.{find_context, chosen_of, blocking_reason}
use genrl_downloader.Worker.Inbox.Laws.{Stands}
use genrl_downloader.Jobs.Diagram.{is_allowed}
use genrl_downloader.Jobs.Move.{default, moved_row, transition}
use genrl_downloader.Worker.Inputs.{TargetInputs, load_inputs}
use genrl_downloader.Worker.Finish.{step}
use genrl_downloader.Worker.Laws.Step.{Stepped, step_moves_once}
use genrl_downloader.Worker.Laws.Stuck.{lost_torrent_stuck}
use genrl_downloader.Worker.Laws.Fruitless.{Fruitless, retried, failures_never_give_up}
use genrl_downloader.Worker.Laws.Consent.{Fits, monitor_needs_consent}
use genrl_downloader.Worker.Laws.Large.{Ready}
use genrl_downloader.Worker.Laws.Large.Again.{Asked, steps, large_download_asks_again}

abbrev torrent : Torrent
torrent = record {
  id = 2;
  info_hash = codes "abcd";
  name = codes "Show - 05";
  magnet = codes "magnet:?xt=abcd";
  seeders = 9;
  leechers = 1;
  size_bytes = 3_000_000_000;
  group = none;
  resolution = none;
  source_url = none;
  score = 90000;
  mal_id = some 21;
  found_at = 5;
  rejected = false;
}

abbrev name : NameRow
name = record {
  mal_id = 21;
  name = codes "show";
  normalized = codes "show";
  priority = 0;
  source = NameSource.mal;
}

abbrev ready : Db
ready = record queue { torrents = torrent ∷ []; names = name ∷ [] }

step_moves_once_example : Stepped 7 JobState.add (step world 7 ready)
step_moves_once_example = step_moves_once world 7 ready adding (λ j path size db. refl) found

abbrev monitored : Job
monitored = record adding { state = JobState.monitor }

abbrev lost : Db
lost = record queue { jobs = monitored ∷ [] }

there : find_job 7 lost.jobs ≡ some monitored
unfolding find_job
there = refl

lost_torrent_stuck_example :
    (JobState.monitor ≡ JobState.monitor
      → step world 7 lost ≡ (err (illegal_transition JobState.monitor JobState.choose 7), lost))
    × (JobState.monitor ≡ JobState.finalize
        → step world 7 lost ≡ (err (illegal_transition JobState.finalize JobState.search 7), lost))
unfolding find_context chosen_of
lost_torrent_stuck_example =
    lost_torrent_stuck world 7 lost monitored
      (record { mal_id = 21; number = 50; title = codes "Show" }) there refl refl

abbrev ready_inputs : TargetInputs
ready_inputs = record {
  mal_id = 21;
  title = codes "Show";
  english_title = none;
  start_year = none;
  show_type = ShowType.tv;
  total_episodes = some 12;
  season = 1;
  fully_aired = true;
  auto = false;
  names = codes "show" ∷ [];
  other_names = [];
}

abbrev searching : Job
searching = record adding { state = JobState.search; attempts = 0 }

abbrev unseen : Db
unseen = record ready { jobs = searching ∷ [] }

unseen_job : find_job 7 unseen.jobs ≡ some searching
unfolding find_job
unseen_job = refl

fruitless : Fruitless world searching unseen
unfolding find_context load_inputs dedup extract_season_from_title normalize_alias normalize
    is_resolved Rules.for_show
fruitless = record {
  context_of = record { mal_id = 21; number = 50; title = codes "Show" };
  show_of = show;
  inputs = ready_inputs;
  rules = Rules.default;
  known = refl;
  row = refl;
  metadata = refl;
  loaded = refl;
  open_ = refl;
  ruled = refl;
  nothing = refl;
  limit = omega arith;
}

failures_never_give_up_example :
    let db' = steps (world ∷ world ∷ []) 7 unseen in
    (find_job 7 db'.jobs ≡ some (retried world searching)) × (db'.questions ≡ unseen.questions)
failures_never_give_up_example =
    failures_never_give_up (world ∷ []) world 7 unseen searching unseen_job refl refl
      (fruitless, tt) fruitless

abbrev chosen : ChosenTorrent
chosen = record {
  info_hash = codes "abcd";
  name = codes "Show - 05";
  magnet = codes "magnet:?xt=abcd";
  size_bytes = 3_000_000_000;
}

well : Ready world adding chosen ready
unfolding find_context chosen_of blocking_reason load_inputs dedup extract_season_from_title
    normalize_alias normalize
well = record {
  context_of = record { mal_id = 21; number = 50; title = codes "Show" };
  inputs = ready_inputs;
  version = codes "v5.0";
  known = refl;
  room = refl;
  running = refl;
  chosen = refl;
  loaded = refl;
}

large_download_asks_again_example : Asked 2 ready (steps (world ∷ world ∷ []) 7 ready)
unfolding approved
large_download_asks_again_example =
    large_download_asks_again (world ∷ world ∷ []) 7 adding chosen ready found refl (omega arith)
      refl (well, (well, tt))

-- The download folder is there.
abbrev open_world : World
open_world = record world { exists = λ path. true }

abbrev small : Db
small = record ready { torrents = record torrent { size_bytes = 300_000_000 } ∷ [] }

here : find_job 7 small.jobs ≡ some adding
unfolding find_job
here = refl

watched : Stands 7 JobState.monitor (step open_world 7 small).1
unfolding step find_job transition is_allowed moved_row
watched = (moved_row JobState.monitor (codes "added") default 800_000 adding, refl, refl)

monitor_needs_consent_example : (blocking_reason open_world ≡ none) × Fits open_world adding small
monitor_needs_consent_example = monitor_needs_consent open_world 7 small adding here refl watched
