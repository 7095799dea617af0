-- ===== src/Worker/Sample.antt =====
-- A world where all is well, for the tests.
use genrl_downloader.Prelude.{◌&&◌, leb, true, false, none, some, []}
use genrl_downloader.Text.{codes}
use genrl_downloader.Error.{ok}
use genrl_downloader.Rules
use genrl_downloader.Worker.World.{Config, World, filed}

abbrev pub config : Config
config = record {
  download_folder = codes "/downloads";
  disk_floor_gb = 1;
  stall_timeout_min = 60;
  max_failed_candidates = 3;
  question_expiry_hours = 48;
  remove_when_finished = false;
  scoring = record {
    fuzzy_threshold = (92, 100);
    score_threshold = 80000;
    score_margin = 10000;
    min_episode_mb = 20;
    max_episode_mb = 5000;
    max_batch_gb = 60;
  };
}

-- Every service is well, there is room, and no download is known to qBittorrent.
abbrev pub world : World
world = record {
  config = config;
  now = 800_000;
  regex = record { captures = λ pattern title. none; is_match = λ pattern title. false };
  chars = record {
    to_lowercase = λ s. s;
    is_alphanumeric = λ c. leb 97 c && leb c 122;
    deordinalled = λ s. s;
  };
  json = record { from_value = λ fields. ok Rules.default; to_value = λ rules. [] };
  scale = record { seeder_points = λ n. 7000; recency = λ age. 9000 };
  to_string = λ n. [];
  parse_release = λ name. record {
    raw = name;
    group = none;
    normalized_title = [];
    season = none;
    episode = none;
    resolution = none;
    codec = none;
    is_batch = false;
    dual_audio = false;
    languages = [];
    version = none;
    year = none;
    episode_range = none;
  };
  stored_score = λ p. p.gained;
  stored_ratio = λ r. 0;
  fetch_metadata = λ mal_id shows names. (shows, names);
  would_allow = true;
  search_candidates = λ names. ok [];
  ensure_running = ok (codes "v5.0");
  client = ok tt;
  get_torrent = λ hash. ok none;
  add = λ magnet. ok tt;
  resolve_folder = λ folder. folder;
  join = λ folder name. name;
  free_bytes = λ folder. some 100_000_000_000;
  exists = λ path. false;
  writable = λ path. true;
  is_dir = λ path. true;
  has_entries = λ path. false;
  file_len = λ path. none;
  create_dir_all = λ path. ok tt;
  show_folder = λ mal_id. ok (codes "/library/Show");
  finalize = λ j path size. (ok (filed path), λ db. db);
}
