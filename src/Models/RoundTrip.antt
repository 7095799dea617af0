-- ===== src/Models/RoundTrip.antt =====
-- What the database writes for an enum it reads back as that enum.
use genrl_downloader.Prelude.{◌≡◌, refl}
use genrl_downloader.Models.JobState.{JobState}
use genrl_downloader.Models.JobState
use genrl_downloader.Models.JobKind.{JobKind}
use genrl_downloader.Models.JobKind
use genrl_downloader.Models.Shows.{
  ListStatus, list_status_str, parse_list_status, QuestionKind, question_kind_str,
  parse_question_kind,
}

parse-as_str_state : (s : JobState) → JobState.parse (JobState.as_str s) ≡ s
unfolding JobState.parse JobState.as_str
parse-as_str_state JobState.search = refl
parse-as_str_state _ = refl

parse-as_str_kind : (k : JobKind) → JobKind.parse (JobKind.as_str k) ≡ k
unfolding JobKind.parse JobKind.as_str
parse-as_str_kind JobKind.search = refl
parse-as_str_kind _ = refl

parse-list_status_str : (s : ListStatus) → parse_list_status (list_status_str s) ≡ s
unfolding parse_list_status list_status_str
parse-list_status_str ListStatus.watching = refl
parse-list_status_str _ = refl

parse-question_kind_str : (k : QuestionKind) → parse_question_kind (question_kind_str k) ≡ k
unfolding parse_question_kind question_kind_str
parse-question_kind_str QuestionKind.match_review = refl
parse-question_kind_str _ = refl

-- Every enum that the queue and the Inbox store as text is read back as the value written: a job's
-- state, a job's kind, an entry's list status, a question's kind.
pub stored_enums_read_back :
    (s : JobState) (k : JobKind) (l : ListStatus) (q : QuestionKind)
    → (JobState.parse (JobState.as_str s) ≡ s)
      × (JobKind.parse (JobKind.as_str k) ≡ k)
      × (parse_list_status (list_status_str l) ≡ l)
      × (parse_question_kind (question_kind_str q) ≡ q)
stored_enums_read_back s k l q =
    (parse-as_str_state s, parse-as_str_kind k, parse-list_status_str l, parse-question_kind_str q)
