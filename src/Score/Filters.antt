-- ===== src/Score/Filters.antt =====
-- The filters of `evaluate` (core/crates/genrl-core/src/score/evaluate.rs), in their order: a
-- filter gives the rejection, or nothing. A byte count is a u64.
use genrl_downloader.Prelude.{
  ℕ, ◌+◌, ◌-◌, ◌*◌, ◌/◌, ◌^◌, Bool, true, false, not, ◌&&◌, ◌||◌, Option, none, some, List, [], ◌∷◌,
  ◌==◌, ltb, leb, is_some, if◌then◌else◌, min, max,
}
use genrl_downloader.Text.{
  Text, codes, starts_with, contains, folded, to_ascii_lowercase, match_text,
}
use genrl_downloader.Models.Shows.{ShowType, tv, movie, ova, ona, special}
use genrl_downloader.Filename.Fuzzy.{Ratio, fuzzy_ratio}
use genrl_downloader.Filename.Normalize.{is_empty}
use genrl_downloader.Rules.{Rules}
use genrl_downloader.Score.{
  Candidate, Target, Rejection, no_seeders, resolution_below_floor, codec_blocked,
  size_out_of_range, uploader_blocked, wrong_episode, episode_on_a_feature, title_is_another_show,
  type_mismatch, season_conflict, Settings, any_same,
}

unfoldable pub type_eq : ShowType → ShowType → Bool
type_eq tv tv = true
type_eq movie movie = true
type_eq ova ova = true
type_eq ona ona = true
type_eq special special = true
type_eq _ _ = false

unfoldable pub check_seeders : Candidate → Option Rejection
check_seeders c = if c.seeders == 0 then some no_seeders else none

unfoldable pub check_category : Candidate → Target → Option Rejection
unfolding starts_with is_empty
check_category c t = elim c.category_id [
  | none ↦ none
  | some cat ↦
      if not (starts_with cat (codes "1_")) && not (is_empty cat)
      then some (type_mismatch t.show_type special)
      else none
]

unfoldable pub check_uploader : Candidate → Rules → Option Rejection
unfolding any_same
check_uploader c rules = elim c.uploader [
  | none ↦ none
  | some u ↦ if any_same u rules.blocked_uploaders then some (uploader_blocked u) else none
]

unfoldable pub resolution_rank : Text → Option ℕ
unfolding match_text folded
resolution_rank r =
    match_text
      ((codes "480p", some 1)
        ∷ (codes "576p", some 2)
        ∷ (codes "720p", some 3)
        ∷ (codes "1080p", some 4)
        ∷ (codes "1440p", some 5)
        ∷ (codes "2160p", some 6)
        ∷ (codes "4k", some 6)
        ∷ [])
      none (folded r)

unfoldable pub below : Option ℕ → Option ℕ → Bool
below (some got) (some floor) = ltb got floor
below _ _ = false

unfoldable pub check_resolution : Candidate → Rules → Option Rejection
unfolding resolution_rank below
check_resolution c rules = elim c.release.resolution [
  | none ↦ none
  | some r ↦
      if below (resolution_rank r) (resolution_rank rules.min_resolution)
      then some (resolution_below_floor r rules.min_resolution)
      else none
]

unfoldable pub check_codec : Candidate → Rules → Option Rejection
unfolding any_same
check_codec c rules = elim c.release.codec [
  | none ↦ none
  | some codec ↦ if any_same codec rules.codecs_blocked then some (codec_blocked codec) else none
]

unfoldable pub is_movie : Option ShowType → Bool
unfolding type_eq
is_movie none = false
is_movie (some s) = type_eq s movie

-- `is_batch`, which the code computes twice
unfoldable pub counts_as_batch : Candidate → Target → Bool
unfolding type_eq is_movie
counts_as_batch c t =
    c.release.is_batch
    || (type_eq t.show_type tv
        && is_some t.wanted_episode
        && not (is_some c.release.episode)
        && not (is_movie c.show_type))

-- `((to - from + 1.0) as u64).max(1)`, in tenths
unfoldable pub ep_count : Candidate → Target → ℕ
ep_count c t = elim c.release.episode_range [
  | some range ↦ max ((range.1 + 10 - range.0) / 10) 1
  | none ↦ elim t.total_episodes [ none ↦ 1 | some n ↦ max n 1 ]
]

abbrev mebi : ℕ
mebi = 1048576

unfoldable pub in_mb : ℕ → ℕ
in_mb bytes = (bytes + (mebi - 1)) / mebi

unfoldable pub saturating_mul : ℕ → ℕ → ℕ
saturating_mul a b = min (a * b) (2 ^ 64 - 1)

unfoldable pub out_of_range : ℕ → Settings → ℕ → Option Rejection
out_of_range mb s top =
    if ltb top mb || ltb mb s.min_episode_mb
    then some (size_out_of_range mb s.min_episode_mb top)
    else none

unfoldable pub check_size : Candidate → Target → Settings → Option Rejection
unfolding counts_as_batch ep_count in_mb saturating_mul out_of_range type_eq
check_size c t s =
    let max_bytes = saturating_mul s.max_batch_gb (1024 * mebi) in
    let max_mb = saturating_mul s.max_batch_gb 1024 in
    let too_big = size_out_of_range (in_mb c.size_bytes) s.min_episode_mb max_mb in
    if counts_as_batch c t
    then (if ltb max_bytes c.size_bytes
        then some too_big
        else out_of_range (in_mb (c.size_bytes / ep_count c t)) s s.max_episode_mb)
    else if type_eq t.show_type movie
    then (if ltb max_bytes c.size_bytes || ltb (in_mb c.size_bytes) s.min_episode_mb
        then some too_big
        else none)
    else out_of_range (in_mb c.size_bytes) s s.max_episode_mb

unfoldable pub less_ratio : Ratio → Ratio → Bool
less_ratio (a, b) (c, d) = ltb (a * d) (c * b)

-- `fuzzy_ratio` does return.
unfoldable pub ratio_of : Text → Text → Ratio
ratio_of a b = elim (fuzzy_ratio a b) [ none ↦ (0, 1) | some r ↦ r ]

unfoldable pub best_from : Ratio → Option Text → List Text → Text → Ratio × Option Text
unfolding ratio_of less_ratio
best_from best name [] title = (best, name)
best_from best name (n ∷ ns) title =
    let better = less_ratio best (ratio_of n title) in
    best_from (if better then ratio_of n title else best) (if better then some n else name) ns title

unfoldable pub best_ratio : List Text → Text → Ratio × Option Text
unfolding best_from
best_ratio names title = best_from (0, 1) none names title

unfoldable pub check_title : Candidate → Target → Settings → Option Rejection
unfolding best_ratio less_ratio
check_title c t s =
    let own = best_ratio t.names c.release.normalized_title in
    let other = best_ratio t.other_names c.release.normalized_title in
    if less_ratio own.0 s.fuzzy_threshold && not (less_ratio other.0 s.fuzzy_threshold)
    then some (title_is_another_show (elim other.1 [ none ↦ [] | some n ↦ n ]) other.0)
    else none

-- The length in UTF-8.
unfoldable pub byte_len : Text → ℕ
byte_len [] = 0
byte_len (c ∷ cs) =
    (if ltb c 128 then 1 else if ltb c 2048 then 2 else if ltb c 65536 then 3 else 4) + byte_len cs

unfoldable pub mentions_other : Text → List Text → Option Rejection
unfolding folded byte_len contains to_ascii_lowercase
mentions_other raw [] = none
mentions_other raw (n ∷ ns) =
    let rest = mentions_other raw ns in
    if leb 4 (byte_len (folded n)) && contains (to_ascii_lowercase raw) (folded n)
    then some (title_is_another_show n (1, 1))
    else rest

unfoldable pub check_episode : Option ℕ → Option ℕ → Bool → Option Rejection
check_episode none (some found) batch = if batch then none else some (episode_on_a_feature found)
check_episode (some wanted) (some found) batch =
    if not (wanted == found) && not batch then some (wrong_episode wanted found) else none
check_episode _ none batch = none

unfoldable pub check_range : Option ℕ → Option (ℕ × ℕ) → Option Rejection
check_range (some wanted) (some (from, to)) =
    if ltb wanted from || ltb to wanted then some (wrong_episode wanted to) else none
check_range _ _ = none

unfoldable pub check_type : Candidate → Target → Option Rejection
unfolding type_eq
check_type c t = elim c.show_type [
  | none ↦ none
  | some found ↦ if type_eq found t.show_type then none else some (type_mismatch t.show_type found)
]

unfoldable pub season_tag : Option ℕ → ℕ
season_tag none = 1
season_tag (some s) = s

unfoldable pub check_season : Candidate → Target → Option Rejection
unfolding season_tag
check_season c t =
    let found = season_tag c.release.season in
    if found == t.season then none else some (season_conflict t.season found)

-- The first rejection.
unfoldable pub first : List (Option Rejection) → Option Rejection
first [] = none
first (r ∷ rs) = elim r [ some x ↦ some x | none ↦ first rs ]

abbrev pub checks : Candidate → Target → Rules → Settings → List (Option Rejection)
checks c t rules s =
    check_seeders c
    ∷ check_category c t
    ∷ check_uploader c rules
    ∷ check_resolution c rules
    ∷ check_codec c rules
    ∷ check_size c t s
    ∷ check_title c t s
    ∷ mentions_other c.release.raw t.other_names
    ∷ check_episode t.wanted_episode c.release.episode c.release.is_batch
    ∷ check_range t.wanted_episode c.release.episode_range
    ∷ check_type c t
    ∷ check_season c t
    ∷ []

unfoldable pub rejection : Candidate → Target → Rules → Settings → Option Rejection
unfolding first
rejection c t rules s = first (checks c t rules s)
