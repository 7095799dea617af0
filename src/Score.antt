-- ===== src/Score.antt =====
-- Scoring a release (core/crates/genrl-core/src/score). Points are in thousandths, as points gained
-- and points lost, since the f64 can fall below 0; an episode number is in tenths; the threshold of
-- the fuzzy ratio is a fraction. The logarithm and the power are arguments. Notes are left out.
pub mod Filters
pub mod Signal
pub mod Evaluate
pub mod Laws
pub mod Order
use genrl_downloader.Prelude.{
  ℕ, ◌+◌, ◌*◌, Bool, true, false, Option, none, some, List, [], ◌∷◌, ◌==◌, ltb, leb, if◌then◌else◌,
}
use genrl_downloader.Text.{Text, text_eq, to_ascii_lowercase}
use genrl_downloader.Models.Shows.{ShowType}
use genrl_downloader.Filename.Fuzzy.{Ratio}

pub data SeedHealth : Type 0 where
  dead thin healthy : SeedHealth

unfoldable pub seed_health : ℕ → ℕ → SeedHealth
seed_health seeders seed_auto_threshold =
    if seeders == 0 then dead else if leb seed_auto_threshold seeders then healthy else thin

-- What the scoring reads of a parsed name.
pub record Release : Type 0 where
  pub raw : Text
  pub group : Option Text
  pub normalized_title : Text
  pub season : Option ℕ
  pub episode : Option ℕ
  pub resolution : Option Text
  pub codec : Option Text
  pub is_batch : Bool
  pub dual_audio : Bool
  pub languages : List Text
  pub version : Option ℕ
  pub year : Option ℕ
  pub episode_range : Option (ℕ × ℕ)

pub record Candidate : Type 0 where
  pub release : Release
  pub info_hash : Text
  pub magnet : Text
  pub seeders : ℕ
  pub leechers : ℕ
  pub trusted : Bool
  pub remake : Bool
  pub size_bytes : ℕ
  pub published_at : ℕ
  pub uploader : Option Text
  pub show_type : Option ShowType
  pub category_id : Option Text

pub record Target : Type 0 where
  pub names : List Text
  pub other_names : List Text
  pub wanted_episode : Option ℕ
  pub show_type : ShowType
  pub season : ℕ
  pub start_year : Option ℕ
  pub fully_aired : Bool
  pub total_episodes : Option ℕ

pub data Rejection : Type 0 where
  no_seeders : Rejection
  -- resolution, floor
  resolution_below_floor : Text → Text → Rejection
  codec_blocked : Text → Rejection
  -- size_mb, min_mb, max_mb
  size_out_of_range : ℕ → ℕ → ℕ → Rejection
  uploader_blocked : Text → Rejection
  -- wanted, found
  wrong_episode : ℕ → ℕ → Rejection
  episode_on_a_feature : ℕ → Rejection
  -- name, ratio
  title_is_another_show : Text → Ratio → Rejection
  -- wanted, found
  type_mismatch : ShowType → ShowType → Rejection
  season_conflict : ℕ → ℕ → Rejection

-- Of the settings, what the scoring and the verdict read.
pub record Settings : Type 0 where
  pub fuzzy_threshold : Ratio
  pub score_threshold : ℕ
  pub score_margin : ℕ
  pub min_episode_mb : ℕ
  pub max_episode_mb : ℕ
  pub max_batch_gb : ℕ

-- An f64 as points gained and lost.
pub record Points : Type 0 where
  pub gained : ℕ
  pub lost : ℕ

unfoldable pub less : Points → Points → Bool
less p q = ltb (p.gained + q.lost) (q.gained + p.lost)

unfoldable pub plus : Points → Points → Points
plus p q = record { gained = p.gained + q.gained; lost = p.lost + q.lost }

abbrev pub points : ℕ → ℕ
points n = n * 1000

pub record Scored : Type 0 where
  pub signal : Points
  pub ranking : Points
  pub title_ratio : Ratio
  pub matched_name : Option Text

unfoldable pub total : Scored → Points
unfolding plus
total s = plus s.signal s.ranking

-- `str::eq_ignore_ascii_case`
unfoldable pub same_word : Text → Text → Bool
same_word a b = text_eq (to_ascii_lowercase a) (to_ascii_lowercase b)

unfoldable pub any_same : Text → List Text → Bool
unfolding same_word
any_same word [] = false
any_same word (w ∷ ws) = let rest = any_same word ws in if same_word w word then true else rest
