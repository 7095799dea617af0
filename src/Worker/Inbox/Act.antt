-- ===== src/Worker/Inbox/Act.antt =====
-- What each choice does, and the move that follows (core/crates/genrl-core/src/worker/inbox.rs,
-- `apply_answer`).
use genrl_downloader.Prelude.{
  ℕ, ◌+◌, Bool, true, false, not, ◌&&◌, ◌||◌, Option, none, some, [], ◌++◌, if◌then◌else◌, ◌*◌,
}
use genrl_downloader.Text.{Text, codes}
use genrl_downloader.Error.{Error, Result, ok, err}
use genrl_downloader.Models.JobState.{JobState, state_eq}
use genrl_downloader.Questions.{
  Choice, use_this, none_of_these, search_again, wrong_release, alias, download, wait, pick_another,
  keep, replace, keep_both, batch, wait_for_singles, pause, change_folder, retry_later,
  manual_search, skip_episode, expired, Answer, Question,
}
use genrl_downloader.Jobs.{Job, Db, find_job}
use genrl_downloader.Jobs.Diagram.{is_allowed}
use genrl_downloader.Jobs.Move.{MoveOptions, default, transition, reschedule}
use genrl_downloader.Worker.Episodes.{find_row, mark_done}
use genrl_downloader.Worker.Inbox.{Outside, answer_label, alias_of_show, set_torrent}
use genrl_downloader.Worker.Inbox.Resolve.{remember_group}

-- No move, a move, or an early return.
pub data Next : Type 0 where
  stay : Next
  go : JobState → Next
  returned : JobState → Next

unfoldable pub with_next : Next → Result (Unit {0}) × Db → Result Next × Db
with_next next (ok _, db) = (ok next, db)
with_next next (err e, db) = (err e, db)

unfoldable pub size_of : Option ℕ → ℕ
size_of none = 0
size_of (some n) = n

unfoldable pub keep_file : Outside → Job → Db → Result Next × Db
unfolding find_row mark_done size_of
keep_file outside j db = elim (find_row j.episode_id db.episodes) [
  | none ↦ (err (Error.db (codes "Query returned no rows")), db)
  | some e ↦ elim e.file_path [
    | none ↦ (ok (go JobState.done), mark_done j.episode_id [] 0 db)
    | some path ↦
        (ok (go JobState.done), mark_done j.episode_id path (size_of (outside.file_size path)) db)
  ]
]

unfoldable pub finalize_or_add : JobState → JobState
unfolding is_allowed
finalize_or_add from = if is_allowed from JobState.finalize then JobState.finalize else JobState.add

unfoldable pub retry : Result JobState × Db → Result Next × Db
retry (ok from, db) = (ok (returned JobState.search), db)
retry (err e, db) = (err e, db)

unfoldable pub act : Outside → ℕ → Job → Option ℕ → Bool → Choice → Db → Result Next × Db
unfolding with_next set_torrent remember_group alias_of_show keep_file finalize_or_add retry
act outside now j mal_id always (use_this hash) db =
    with_next (go JobState.add)
      (remember_group outside always mal_id hash (set_torrent j.id hash db))
act outside now j mal_id always none_of_these db = (ok (go JobState.failed), db)
act outside now j mal_id always search_again db = (ok (go JobState.search), db)
act outside now j mal_id always wrong_release db = (ok (go JobState.search), db)
act outside now j mal_id always (alias name) db =
    (ok (go JobState.search), alias_of_show outside mal_id name db)
act outside now j mal_id always download db = (ok (go JobState.add), db)
act outside now j mal_id always wait db =
    with_next (go JobState.search)
      (reschedule db now j.id (now + 24 * 3600) (codes "waiting 24 h for seeds"))
act outside now j mal_id always pick_another db = (ok (go JobState.search), db)
act outside now j mal_id always keep db = keep_file outside j db
act outside now j mal_id always replace db = (ok (go (finalize_or_add j.state)), db)
act outside now j mal_id always keep_both db = (ok (go (finalize_or_add j.state)), db)
act outside now j mal_id always batch db = (ok (go JobState.add), db)
act outside now j mal_id always wait_for_singles db = (ok (go JobState.search), db)
act outside now j mal_id always pause db =
    (ok (go JobState.needs_input), record db { automation_on = false })
act outside now j mal_id always change_folder db = (ok stay, db)
act outside now j mal_id always retry_later db = retry (
    transition db now j.id JobState.search (codes "retry later")
      (record default { reset_attempts = true }))
act outside now j mal_id always manual_search db = (ok stay, db)
act outside now j mal_id always skip_episode db = (ok (go JobState.failed), db)
act outside now j mal_id always expired db = (ok stay, db)

unfoldable pub clears_torrent : Choice → Bool
clears_torrent pick_another = true
clears_torrent none_of_these = true
clears_torrent _ = false

unfoldable pub options : Choice → JobState → MoveOptions
unfolding clears_torrent
options choice next = record default {
  reset_attempts = state_eq next JobState.search;
  clear_torrent = clears_torrent choice;
}

unfoldable pub moved : JobState → Result JobState × Db → Result (Option JobState) × Db
moved next (ok from, db) = (ok (some next), db)
moved next (err e, db) = (err e, db)

unfoldable pub follow : ℕ → Job → Choice → Result Next × Db → Result (Option JobState) × Db
unfolding options moved answer_label
follow now j choice (err e, db) = (err e, db)
follow now j choice (ok stay, db) = (ok (some j.state), db)
follow now j choice (ok (returned s), db) = (ok (some s), db)
follow now j choice (ok (go next), db) =
    if not (state_eq next j.state) && not (is_allowed j.state next)
    then (ok (some j.state), db)
    else moved next (
        transition db now j.id next (codes "answered: " ++ answer_label choice)
          (options choice next))

unfoldable pub alias_name : Choice → Option Text
alias_name (alias name) = some name
alias_name _ = none

-- The alias that `always` saves before the state moves.
unfoldable pub saved_alias : Outside → Option ℕ → Answer → Db → Db
unfolding alias_of_show alias_name
saved_alias outside mal_id a db = elim (if a.always then alias_name a.choice else none) [
  | none ↦ db
  | some name ↦ alias_of_show outside mal_id name db
]

unfoldable pub waits : JobState → Bool
waits s = state_eq s JobState.needs_input || state_eq s JobState.failed

unfoldable pub answer_job :
    Outside → ℕ → Question → Answer → Job → Db → Result (Option JobState) × Db
unfolding waits saved_alias act follow
answer_job outside now q a j db =
    if not (waits j.state)
    then (ok (some j.state), db)
    else follow now j a.choice
        (act outside now j q.mal_id a.always a.choice (saved_alias outside q.mal_id a db))

unfoldable pub apply_answer : Outside → Db → ℕ → Question → Answer → Result (Option JobState) × Db
unfolding answer_job
apply_answer outside db now q a = elim q.job_id [
  | none ↦ (ok none, db)
  | some id ↦ elim (find_job id db.jobs) [
    | none ↦ (ok none, db)
    | some j ↦ answer_job outside now q a j db
  ]
]
