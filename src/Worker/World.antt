-- ===== src/Worker/World.antt =====
-- What a step of the worker meets (core/crates/genrl-core/src/worker/types.rs, engine.rs): the
-- settings, and the answers of the services, the disk and the library, which stay the same during
-- one step. A progress is in millionths.
use genrl_downloader.Prelude.{ℕ, Bool, Option, List, leb}
use genrl_downloader.Text.{Text}
use genrl_downloader.Error.{Result}
use genrl_downloader.Filename.{Regex}
use genrl_downloader.Filename.Fuzzy.{Ratio}
use genrl_downloader.Filename.Normalize.{Chars}
use genrl_downloader.Rules.{Json}
use genrl_downloader.Names.{NameRow}
use genrl_downloader.Score
use genrl_downloader.Score.{Release, Candidate, Points}
use genrl_downloader.Score.Signal.{Scale}
use genrl_downloader.Jobs.{Job, Show, Db}

pub record Config : Type 0 where
  pub download_folder : Text
  pub disk_floor_gb : ℕ
  pub stall_timeout_min : ℕ
  pub max_failed_candidates : ℕ
  pub question_expiry_hours : ℕ
  pub remove_when_finished : Bool
  pub scoring : Score.Settings

-- `qbit::Torrent`, as far as the steps read it.
pub record TorrentInfo : Type 0 where
  pub name : Text
  pub progress : ℕ
  pub num_seeds : ℕ
  pub size : ℕ
  pub content_path : Text

unfoldable pub is_complete : TorrentInfo → Bool
is_complete t = leb 1_000_000 t.progress

pub data FinalizeOutcome : Type 0 where
  -- destination_path
  filed : Text → FinalizeOutcome
  needs_input : FinalizeOutcome

pub record World : Type 0 where
  pub config : Config
  pub now : ℕ
  -- pure code
  pub regex : Regex
  pub chars : Chars
  pub json : Json
  pub scale : Scale
  pub to_string : ℕ → Text
  pub parse_release : Text → Release
  pub stored_score : Points → ℕ
  pub stored_ratio : Ratio → ℕ
  -- `metadata::fetch_show_metadata_with_client`, which writes shows and names
  pub fetch_metadata : ℕ → List Show → List NameRow → List Show × List NameRow
  -- Nyaa
  pub would_allow : Bool
  pub search_candidates : List Text → Result (List Candidate)
  -- qBittorrent: its version, its client, and its torrents
  pub ensure_running : Result Text
  pub client : Result (Unit {0})
  pub get_torrent : Text → Result (Option TorrentInfo)
  pub add : Text → Result (Unit {0})
  -- the disk: a folder's path with `~` and the default put in, and what is known of a path
  pub resolve_folder : Text → Text
  pub join : Text → Text → Text
  pub free_bytes : Text → Option ℕ
  pub exists : Text → Bool
  pub writable : Text → Bool
  pub is_dir : Text → Bool
  pub has_entries : Text → Bool
  pub file_len : Text → Option ℕ
  pub create_dir_all : Text → Result (Unit {0})
  -- the library: a show's folder, and the filing, which may write questions
  pub show_folder : ℕ → Result Text
  pub finalize : Job → Text → ℕ → Result FinalizeOutcome × (Db → Db)

pub record JobContext : Type 0 where
  pub mal_id : ℕ
  pub number : ℕ
  pub title : Text

pub record ChosenTorrent : Type 0 where
  pub info_hash : Text
  pub name : Text
  pub magnet : Text
  pub size_bytes : ℕ

unfoldable pub monitor_poll_secs : ℕ
monitor_poll_secs = 10
