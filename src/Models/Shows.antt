-- ===== src/Models/Shows.antt =====
-- The enums of a show, of the list and of the Inbox (core/crates/genrl-core/src/models.rs).
use genrl_downloader.Prelude.{[], ◌∷◌}
use genrl_downloader.Text.{Text, codes, match_text, folded}

pub data ShowType : Type 0 where
  tv movie ova ona special : ShowType

unfoldable pub parse_show_type : Text → ShowType
unfolding match_text folded
parse_show_type s =
    match_text
      ((codes "movie", movie)
        ∷ (codes "ova", ova)
        ∷ (codes "ona", ona)
        ∷ (codes "special", special)
        ∷ [])
      tv (folded s)

pub data AiringStatus : Type 0 where
  airing finished not_yet_aired : AiringStatus

unfoldable pub parse_airing_status : Text → AiringStatus
unfolding match_text folded
parse_airing_status s =
    match_text
      ((codes "currently airing", airing)
        ∷ (codes "airing", airing)
        ∷ (codes "not yet aired", not_yet_aired)
        ∷ (codes "upcoming", not_yet_aired)
        ∷ [])
      finished (folded s)

pub data ListStatus : Type 0 where
  watching completed on_hold dropped plan_to_watch : ListStatus

unfoldable pub parse_list_status : Text → ListStatus
unfolding match_text folded
parse_list_status s =
    match_text
      ((codes "watching", watching)
        ∷ (codes "completed", completed)
        ∷ (codes "on_hold", on_hold)
        ∷ (codes "on-hold", on_hold)
        ∷ (codes "onhold", on_hold)
        ∷ (codes "dropped", dropped)
        ∷ [])
      plan_to_watch (folded s)

unfoldable pub list_status_str : ListStatus → Text
list_status_str watching = codes "watching"
list_status_str completed = codes "completed"
list_status_str on_hold = codes "on_hold"
list_status_str dropped = codes "dropped"
list_status_str plan_to_watch = codes "plan_to_watch"

pub data QuestionKind : Type 0 where
  match_review low_seeds file_exists batch_only disk_space all_failed entry_changed service_notice :
      QuestionKind

unfoldable pub question_kind_str : QuestionKind → Text
question_kind_str match_review = codes "match_review"
question_kind_str low_seeds = codes "low_seeds"
question_kind_str file_exists = codes "file_exists"
question_kind_str batch_only = codes "batch_only"
question_kind_str disk_space = codes "disk_space"
question_kind_str all_failed = codes "all_failed"
question_kind_str entry_changed = codes "entry_changed"
question_kind_str service_notice = codes "service_notice"

unfoldable pub parse_question_kind : Text → QuestionKind
unfolding match_text
parse_question_kind s =
    match_text
      ((codes "low_seeds", low_seeds)
        ∷ (codes "file_exists", file_exists)
        ∷ (codes "batch_only", batch_only)
        ∷ (codes "disk_space", disk_space)
        ∷ (codes "all_failed", all_failed)
        ∷ (codes "entry_changed", entry_changed)
        ∷ (codes "service_notice", service_notice)
        ∷ [])
      match_review s
