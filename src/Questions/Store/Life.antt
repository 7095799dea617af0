-- ===== src/Questions/Store/Life.antt =====
-- A question from asking to its answer (core/crates/genrl-core/src/questions/mod.rs).
use genrl_downloader.Prelude.{
  ℕ, ◌+◌, Bool, true, false, ◌≡◌, ◌≢◌, refl, ap, ◌∙◌, inl, inr, Option, none, some, List, [], ◌∷◌,
  ◌++◌, ◌==◌, if◌then◌else◌, Bool-cases, arith,
}
use mathlib.Core.List.{append-nil}
use genrl_downloader.Questions.{Payload, kind, Answer, Question}
use genrl_downloader.Jobs.{Db}
use genrl_downloader.Questions.Store.{
  expiry, ask, is_unanswered, is_open, filter, open_questions, set_answer, answer, find, get,
  has_id, without, delete,
}
use genrl_downloader.Questions.Store.Laws.{IsKeyed, answered_is_shut}

-- What `ask` stores.
abbrev pub new_question : Db → Option ℕ → Option ℕ → Payload → ℕ → Option ℕ → Question
new_question db job_id mal_id payload now expires_in = record {
  id = db.next_question;
  job_id = job_id;
  mal_id = mal_id;
  kind = kind payload;
  payload = payload;
  answer = none;
  created_at = now;
  expires_at = expiry now expires_in;
}

unused : (n : ℕ) (qs : List Question) → IsKeyed n qs → has_id n qs ≡ false
unfolding has_id
unused n [] w = refl
unused n (q ∷ qs) w = ground (arith, w.0, unused n qs w.2)

find-last :
    (q : Question) (qs : List Question)
    → has_id q.id qs ≡ false
    → find q.id (qs ++ (q ∷ [])) ≡ some q
unfolding find has_id
find-last q [] h = ground arith
find-last q (r ∷ qs) h = ground (arith, h, find-last q qs)

filter-last :
    (p : Question → Bool) (q : Question) (qs : List Question)
    → filter p (qs ++ (q ∷ [])) ≡ filter p qs ++ (if p q then q ∷ [] else [])
unfolding filter
filter-last p q [] = refl
filter-last p q (r ∷ qs) = elim (Bool-cases (p r)) [
  | inl kept ↦ ground (arith, kept, filter-last p q qs)
  | inr dropped ↦ ground (arith, dropped, filter-last p q qs)
]

set_answer-last :
    (a : Answer) (q : Question) (qs : List Question)
    → has_id q.id qs ≡ false
    → set_answer q.id a (qs ++ (q ∷ [])) ≡ qs ++ (record q { answer = some a } ∷ [])
unfolding set_answer has_id
set_answer-last a q [] h = ground arith
set_answer-last a q (r ∷ qs) h = ground (arith, h, set_answer-last a q qs)

without-last :
    (q : Question) (qs : List Question)
    → has_id q.id qs ≡ false
    → without q.id (qs ++ (q ∷ [])) ≡ qs
unfolding without has_id
without-last q [] h = ground arith
without-last q (r ∷ qs) h = ground (arith, h, without-last q qs)

has_id-last :
    (i : ℕ) (q : Question) (qs : List Question)
    → has_id i qs ≡ false
    → (q.id == i) ≡ false
    → has_id i (qs ++ (q ∷ [])) ≡ false
unfolding has_id
has_id-last i q [] h k = ground (arith, k)
has_id-last i q (r ∷ qs) h k = ground (arith, h, k, has_id-last i q qs)

last-IsKeyed :
    (n : ℕ) (q : Question) (qs : List Question)
    → q.id ≡ n
    → IsKeyed n qs
    → IsKeyed (n + 1) (qs ++ (q ∷ []))
unfolding has_id
last-IsKeyed n q [] e w = (omega (arith, e), refl, tt)
last-IsKeyed n q (r ∷ qs) e w = (
  omega (arith, w.0),
  has_id-last r.id q qs w.1 (ground (arith, e, w.0)),
  last-IsKeyed n q qs e w.2,
)

asked_is_open :
    (db : Db) (job_id mal_id : Option ℕ) (payload : Payload) (now : ℕ) (expires_in : Option ℕ)
    → expires_in ≢ some 0
    → is_open now (new_question db job_id mal_id payload now expires_in) ≡ true
unfolding is_open is_unanswered expiry
asked_is_open db job_id mal_id payload now none h = refl
asked_is_open db job_id mal_id payload now (some secs) h = ground (arith, h)

-- Where the ids are distinct and below the next one, and the time to the deadline is not 0: asking
-- keeps the ids so, and puts the question last on the list of open questions, where its id finds
-- it; answering it gives the open list from before it was asked, and deleting it the rows from
-- before it was asked.
pub ask_answer_delete :
    (db : Db) (job_id mal_id : Option ℕ) (payload : Payload) (now : ℕ) (expires_in : Option ℕ)
    (a : Answer)
    → IsKeyed db.next_question db.questions
    → expires_in ≢ some 0
    → let (id, db') = ask db job_id mal_id payload now expires_in in
      let q = new_question db job_id mal_id payload now expires_in in
      IsKeyed db'.next_question db'.questions
      × (get db' id ≡ some q)
      × (open_questions db' now ≡ open_questions db now ++ (q ∷ []))
      × (open_questions (answer db' id a) now ≡ open_questions db now)
      × ((delete db' id).1.questions ≡ db.questions)
unfolding ask get open_questions answer delete
ask_answer_delete db job_id mal_id payload now expires_in a w h =
    let q = new_question db job_id mal_id payload now expires_in in
    let new : has_id q.id db.questions ≡ false = unused db.next_question db.questions w in
    let shut = record q { answer = some a } in
    (
      last-IsKeyed db.next_question q db.questions refl w,
      find-last q db.questions new,
      filter-last (is_open now) q db.questions
          ∙ ap (λ b. filter (is_open now) db.questions ++ (if b then q ∷ [] else []))
              (asked_is_open db job_id mal_id payload now expires_in h),
      ap (filter (is_open now)) (set_answer-last a q db.questions new)
          ∙ filter-last (is_open now) shut db.questions
          ∙ ap (λ b. filter (is_open now) db.questions ++ (if b then shut ∷ [] else []))
              (answered_is_shut now q a).0
          ∙ append-nil (filter (is_open now) db.questions),
      without-last q db.questions new,
    )
