-- ===== src/Worker/Inbox/Resolve.antt =====
-- Saving a group as a rule, and answering the show's other Match Review questions by it
-- (core/crates/genrl-core/src/worker/inbox.rs, `auto_resolve_show_questions`).
use genrl_downloader.Prelude.{
  ℕ, Bool, true, false, ◌&&◌, Option, none, some, List, [], ◌∷◌, if◌then◌else◌,
}
use genrl_downloader.Text.{Text, codes, text_eq, folded, trim}
use genrl_downloader.Error.{Result, ok, err}
use genrl_downloader.Models.JobState.{JobState, state_eq}
use genrl_downloader.Models.Shows
use genrl_downloader.Filename.Normalize.{is_empty}
use genrl_downloader.Rules.{set_override}
use genrl_downloader.Questions.{MatchOption, Payload, match_review, use_this, Question}
use genrl_downloader.Questions.Store.{concerns, is_unanswered, filter, set_answer}
use genrl_downloader.Jobs.{Job, Db, update_job}
use genrl_downloader.Jobs.Enqueue.{find_torrent}
use genrl_downloader.Worker.Inbox.{Outside, torrent_id_of}

unfoldable pub of_group : Text → List MatchOption → Option MatchOption
of_group group [] = none
of_group group (o ∷ os) =
    let rest = of_group group os in
    elim o.group [ none ↦ rest | some g ↦ if text_eq (folded g) group then some o else rest ]

unfoldable pub matched : Text → Payload → Option MatchOption
unfolding of_group
matched group (match_review expected options reason) = of_group group options
matched group _ = none

-- `UPDATE jobs … WHERE id = ?1 AND state = 'needs_input'`
unfoldable pub sent_to_add : Option ℕ → Job → Job
sent_to_add torrent r =
    if state_eq r.state JobState.needs_input
    then record r { torrent_id = torrent; state = JobState.add; last_error = none }
    else r

unfoldable pub resume_job : Option ℕ → Text → Db → Db
unfolding update_job sent_to_add torrent_id_of
resume_job none hash db = db
resume_job (some id) hash db = record db {
  jobs = update_job id (sent_to_add (torrent_id_of hash db)) db.jobs;
}

unfoldable pub resolve_one : Text → Question → Db → Db
unfolding matched resume_job set_answer
resolve_one group q db = elim (matched group q.payload) [
  | none ↦ db
  | some o ↦ resume_job q.job_id o.info_hash (record db {
    questions =
        set_answer q.id (record { choice = use_this o.info_hash; always = true }) db.questions;
  })
]

unfoldable pub resolve_each : Text → List Question → Db → Db
unfolding resolve_one
resolve_each group [] db = db
resolve_each group (q ∷ qs) db = resolve_each group qs (resolve_one group q db)

unfoldable pub is_review : ℕ → Question → Bool
unfolding concerns is_unanswered
is_review mal_id q =
    concerns mal_id q && is_unanswered q && elim q.kind [ Shows.match_review ↦ true | _ ↦ false ]

unfoldable pub auto_resolve_show_questions : ℕ → Text → Db → Db
unfolding filter is_review resolve_each
auto_resolve_show_questions mal_id group db =
    resolve_each (folded group) (filter (is_review mal_id) db.questions) db

unfoldable pub save_group : Outside → ℕ → Text → Db → Result (Unit {0}) × Db
unfolding set_override auto_resolve_show_questions is_empty trim
save_group outside mal_id group db =
    if is_empty (trim group)
    then (ok tt, db)
    else elim (set_override mal_id (codes "groups") (outside.groups_json (trim group ∷ []))
        db.rules) [
          | err e ↦ (err e, db)
          | ok rules ↦
              (ok tt, auto_resolve_show_questions mal_id (trim group) (record db { rules = rules }))
        ]

unfoldable pub group_of : Text → Db → Option Text
unfolding find_torrent
group_of hash db = elim (find_torrent hash db.torrents) [ none ↦ none | some t ↦ t.group ]

-- What `always` adds to "use this one".
unfoldable pub remember_group : Outside → Bool → Option ℕ → Text → Db → Result (Unit {0}) × Db
unfolding save_group group_of
remember_group outside true (some mal_id) hash db = elim (group_of hash db) [
  | none ↦ (ok tt, db)
  | some group ↦ save_group outside mal_id group db
]
remember_group outside _ _ hash db = (ok tt, db)
