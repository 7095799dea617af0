-- ===== src/Questions/Store/Laws.antt =====
-- Deadlines and answers of the questions (core/crates/genrl-core/src/questions/mod.rs).
use genrl_downloader.Prelude.{
  ℕ, ◌<◌, Bool, true, false, ◌≡◌, refl, ap, ◌∙◌, inl, inr, some, List, [], ◌∷◌, map, ◌==◌,
  if◌then◌else◌, Bool-cases, arith,
}
use genrl_downloader.Questions.{Answer, Question}
use genrl_downloader.Jobs.{Db}
use genrl_downloader.Questions.Store.{
  is_unanswered, is_open, is_expired, filter, open_questions, set_answer, expired_answer,
  answer_each, expire, has_id,
}

-- Ids below the next one, each once.
abbrev pub IsKeyed : ℕ → List Question → Type 0
IsKeyed n [] = Unit
IsKeyed n (q ∷ qs) = (q.id < n) × (has_id q.id qs ≡ false) × IsKeyed n qs

-- A question past its deadline is answered "expired", any other is as it was.
abbrev pub settle : ℕ → Question → Question
settle now q = if is_expired now q then record q { answer = some expired_answer } else q

pub set_answer-absent :
    (id : ℕ) (a : Answer) (qs : List Question) → has_id id qs ≡ false → set_answer id a qs ≡ qs
unfolding has_id set_answer
set_answer-absent id a [] h = refl
set_answer-absent id a (q ∷ qs) h = ground (arith, h, set_answer-absent id a qs)

has_id-filter :
    (p : Question → Bool) (id : ℕ) (qs : List Question)
    → has_id id qs ≡ false
    → has_id id (filter p qs) ≡ false
unfolding has_id filter
has_id-filter p id [] h = h
has_id-filter p id (q ∷ qs) h = elim (Bool-cases (p q)) [
  | inl kept ↦ ground (arith, kept, h, has_id-filter p id qs)
  | inr dropped ↦ ground (arith, dropped, h, has_id-filter p id qs)
]

keyed_apart :
    (q e : Question) (es : List Question)
    → has_id q.id (e ∷ es) ≡ false
    → ((q.id == e.id) ≡ false) × (has_id q.id es ≡ false)
unfolding has_id
keyed_apart q e es h = ground (arith, h)

answer_each-cons :
    (es : List Question) (q : Question) (qs : List Question)
    → has_id q.id es ≡ false
    → answer_each es (q ∷ qs) ≡ q ∷ answer_each es qs
unfolding has_id answer_each set_answer
answer_each-cons [] q qs h = refl
answer_each-cons (e ∷ es) q qs h =
    let (apart, rest) = keyed_apart q e es h in
    ap (answer_each es) (ground (arith, apart))
    ∙ answer_each-cons es q (set_answer e.id expired_answer qs) rest

answered_here :
    (q : Question) (qs : List Question)
    → has_id q.id qs ≡ false
    → set_answer q.id expired_answer (q ∷ qs) ≡ record q { answer = some expired_answer } ∷ qs
unfolding set_answer
answered_here q qs h = ground (arith, set_answer-absent q.id expired_answer qs h)

answer_each-map :
    (n now : ℕ) (qs : List Question)
    → IsKeyed n qs
    → answer_each (filter (is_expired now) qs) qs ≡ map (settle now) qs
unfolding filter answer_each set_answer
answer_each-map n now [] w = refl
answer_each-map n now (q ∷ qs) w = elim (Bool-cases (is_expired now q)) [
  | inl late ↦
      let past = filter (is_expired now) qs in
      let q' = record q { answer = some expired_answer } in
      ap (λ es. answer_each es (q ∷ qs)) {x = filter (is_expired now) (q ∷ qs)} {y = q ∷ past}
        (ground (arith, late))
      ∙ ap (answer_each past) (answered_here q qs w.1)
      ∙ answer_each-cons past q' qs (has_id-filter (is_expired now) q.id qs w.1)
      ∙ ground (arith, late, answer_each-map n now qs w.2)
  | inr early ↦
      let past = filter (is_expired now) qs in
      ap (λ es. answer_each es (q ∷ qs)) {x = filter (is_expired now) (q ∷ qs)} {y = past}
        (ground (arith, early))
      ∙ answer_each-cons past q qs (has_id-filter (is_expired now) q.id qs w.1)
      ∙ ground (arith, early, answer_each-map n now qs w.2)
]

late_is_shut : (now : ℕ) (q : Question) → is_expired now q ≡ true → is_open now q ≡ false
unfolding is_open is_expired is_unanswered
late_is_shut now q h = ground (arith, h)

pub answered_is_shut :
    (now : ℕ) (q : Question) (a : Answer)
    → (is_open now (record q { answer = some a }) ≡ false)
      × (is_expired now (record q { answer = some a }) ≡ false)
unfolding is_open is_expired is_unanswered
answered_is_shut now q a = (refl, refl)

open_settle :
    (now : ℕ) (qs : List Question)
    → filter (is_open now) (map (settle now) qs) ≡ filter (is_open now) qs
unfolding filter
open_settle now [] = refl
open_settle now (q ∷ qs) = elim (Bool-cases (is_expired now q)) [
  | inl late ↦ ground (
    arith,
    late,
    late_is_shut now q late,
    answered_is_shut now q expired_answer,
    open_settle now qs,
  )
  | inr early ↦ ground (arith, early, open_settle now qs)
]

none_expired : (now : ℕ) (qs : List Question) → filter (is_expired now) (map (settle now) qs) ≡ []
unfolding filter
none_expired now [] = refl
none_expired now (q ∷ qs) = elim (Bool-cases (is_expired now q)) [
  | inl late ↦ ground (arith, late, answered_is_shut now q expired_answer, none_expired now qs)
  | inr early ↦ ground (arith, early, none_expired now qs)
]

-- Where the ids of the questions are distinct and below the next one, expiring questions
-- answers "expired" exactly those that are unanswered and past their deadline and changes no other;
-- the list of open questions is the same before and after, and a second run at the same time
-- returns nothing.
pub expire_correct :
    (db : Db) (now : ℕ)
    → IsKeyed db.next_question db.questions
    → ((expire db now).1.questions ≡ map (settle now) db.questions)
      × (open_questions ((expire db now).1) now ≡ open_questions db now)
      × ((expire ((expire db now).1) now).0 ≡ [])
unfolding expire open_questions
expire_correct db now w =
    let same = answer_each-map db.next_question now db.questions w in
    (
      same,
      ap (filter (is_open now)) same ∙ open_settle now db.questions,
      ap (filter (is_expired now)) same ∙ none_expired now db.questions,
    )
