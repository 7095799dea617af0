-- ===== src/Questions/Store.antt =====
-- The store of questions (core/crates/genrl-core/src/questions/mod.rs). Rows stand in the order of
-- their ids, which `AUTOINCREMENT` gives out.
pub mod Laws
pub mod Life
use genrl_downloader.Prelude.{
  ℕ, ◌+◌, Bool, true, false, not, ◌&&◌, ◌||◌, Option, none, some, List, [], ◌∷◌, ◌++◌, ◌==◌, leb,
  if◌then◌else◌, length,
}
use genrl_downloader.Models.Shows.{QuestionKind, question_kind_str}
use genrl_downloader.Text.{text_eq}
use genrl_downloader.Questions.{Payload, kind, Answer, expired, Question}
use genrl_downloader.Jobs.{Db}

unfoldable pub expiry : ℕ → Option ℕ → Option ℕ
expiry now none = none
expiry now (some secs) = some (now + secs)

-- The id of the new row, and the database.
unfoldable pub ask : Db → Option ℕ → Option ℕ → Payload → ℕ → Option ℕ → ℕ × Db
unfolding expiry
ask db job_id mal_id payload now expires_in = (
  db.next_question,
  record db {
    questions =
        db.questions
        ++ (record {
          id = db.next_question;
          job_id = job_id;
          mal_id = mal_id;
          kind = kind payload;
          payload = payload;
          answer = none;
          created_at = now;
          expires_at = expiry now expires_in;
        }
            ∷ []);
    next_question = db.next_question + 1;
  },
)

unfoldable pub is_unanswered : Question → Bool
is_unanswered q = elim q.answer [ none ↦ true | some a ↦ false ]

-- `answer IS NULL AND (expires_at IS NULL OR expires_at > ?1)`
unfoldable pub is_open : ℕ → Question → Bool
unfolding is_unanswered
is_open now q = is_unanswered q && elim q.expires_at [ none ↦ true | some at ↦ not (leb at now) ]

-- `answer IS NULL AND expires_at IS NOT NULL AND expires_at <= ?1`
unfoldable pub is_expired : ℕ → Question → Bool
unfolding is_unanswered
is_expired now q = is_unanswered q && elim q.expires_at [ none ↦ false | some at ↦ leb at now ]

unfoldable pub filter : (Question → Bool) → List Question → List Question
filter p [] = []
filter p (q ∷ qs) = let rest = filter p qs in if p q then q ∷ rest else rest

-- `open`
unfoldable pub open_questions : Db → ℕ → List Question
unfolding filter is_open
open_questions db now = filter (is_open now) db.questions

unfoldable pub concerns : ℕ → Question → Bool
concerns mal_id q = elim q.mal_id [ none ↦ false | some id ↦ id == mal_id ]

unfoldable pub for_show : Db → ℕ → ℕ → List Question
unfolding filter is_open concerns
for_show db mal_id now = filter (λ q. is_open now q && concerns mal_id q) db.questions

unfoldable pub of_kind : Db → QuestionKind → ℕ → List Question
unfolding filter is_open
of_kind db k now =
    filter (λ q. is_open now q && text_eq (question_kind_str q.kind) (question_kind_str k))
      db.questions

-- `UPDATE questions SET answer = ?1 WHERE id = ?2`
unfoldable pub set_answer : ℕ → Answer → List Question → List Question
set_answer id a [] = []
set_answer id a (q ∷ qs) =
    let rest = set_answer id a qs in
    if q.id == id then record q { answer = some a } ∷ rest else q ∷ rest

unfoldable pub answer : Db → ℕ → Answer → Db
unfolding set_answer
answer db id a = record db { questions = set_answer id a db.questions }

unfoldable pub find : ℕ → List Question → Option Question
find id [] = none
find id (q ∷ qs) = if q.id == id then some q else find id qs

unfoldable pub get : Db → ℕ → Option Question
unfolding find
get db id = find id db.questions

abbrev pub expired_answer : Answer
expired_answer = record { choice = expired; always = false }

unfoldable pub answer_each : List Question → List Question → List Question
unfolding set_answer
answer_each [] qs = qs
answer_each (e ∷ es) qs = answer_each es (set_answer e.id expired_answer qs)

-- The questions past their deadline, and the database in which they are answered.
unfoldable pub expire : Db → ℕ → List Question × Db
unfolding filter is_expired answer_each
expire db now =
    let past = filter (is_expired now) db.questions in
    (past, record db { questions = answer_each past db.questions })

unfoldable pub has_id : ℕ → List Question → Bool
has_id id [] = false
has_id id (q ∷ qs) = q.id == id || has_id id qs

unfoldable pub without : ℕ → List Question → List Question
without id [] = []
without id (q ∷ qs) = let rest = without id qs in if q.id == id then rest else q ∷ rest

-- Whether a row was removed, and the database.
unfoldable pub delete : Db → ℕ → Bool × Db
unfolding has_id without
delete db id = (has_id id db.questions, record db { questions = without id db.questions })

unfoldable pub open_count : Db → ℕ → ℕ
unfolding open_questions
open_count db now = length (open_questions db now)
