-- ===== src/Worker/Inbox/Answered.antt =====
-- What an answer comes to (core/crates/genrl-core/src/worker/inbox.rs, `apply_answer`).
use genrl_downloader.Prelude.{
  ℕ, ◌+◌, Bool, true, false, ◌≡◌, ◌≢◌, refl, sym, ap, subst, ◌∙◌, inl, inr, ◌⊎◌, Option, none, some,
  List, [], ◌∷◌, ◌++◌, ◌==◌, ◌*◌, if◌then◌else◌, Bool-cases, Option-cases, arith,
}
use genrl_downloader.Text.{Text, codes}
use genrl_downloader.Error.{Result, ok}
use genrl_downloader.Models.JobState.{JobState, state_eq}
use genrl_downloader.Questions.{
  Choice, use_this, none_of_these, search_again, wrong_release, alias, download, wait, pick_another,
  keep, replace, keep_both, batch, wait_for_singles, pause, change_folder, retry_later,
  manual_search, skip_episode, expired, Answer, Question,
}
use genrl_downloader.Jobs.{Job, Db, Episode, find_job}
use genrl_downloader.Jobs.Diagram.{is_allowed, Move, search_step}
use genrl_downloader.Jobs.Diagram.Laws.{is_allowed_iff}
use genrl_downloader.Jobs.Move.{MoveOptions, default, transition, reschedule, moved_row}
use genrl_downloader.Jobs.Move.Legal.{state_eq_iff, transition_ok_iff, ok_row, rescheduled}
use genrl_downloader.Jobs.Move.Rows.{find_update_self}
use genrl_downloader.Worker.Episodes.{find_row}
use genrl_downloader.Worker.Inbox.{Outside, answer_label, torrent_id_of, set_torrent, alias_of_show}
use genrl_downloader.Worker.Inbox.Act.{
  Next, stay, go, returned, with_next, keep_file, finalize_or_add, retry, act, options, follow,
  moved, alias_name, saved_alias, waits, answer_job, apply_answer,
}
use genrl_downloader.Worker.Inbox.Resolve.{remember_group}
use genrl_downloader.Worker.Inbox.Laws.{Stands, Kept, remembered}

-- The job is in `s`, which is its state from before or follows it in the diagram.
abbrev pub Settled : ℕ → JobState → Result (Option JobState) × Db → Type 0
Settled id from (r, db) =
    (s : JobState) × (r ≡ ok (some s)) × Stands id s db × ((s ≡ from) ⊎ Move from s)

-- What holds of the database when the choice has been carried out.
After : ℕ → JobState → Next → Db → Type 0
After id from stay db = Stands id from db
After id from (go s) db =
    Stands id from db ⊎ ((from ≡ JobState.needs_input) × (s ≡ JobState.add) × Stands id s db)
After id from (returned s) db = Stands id s db × Move from s

moved-Stands :
    (db : Db) (now id : ℕ) (from next : JobState) (reason : Text) (o : MoveOptions)
    → Stands id from db
    → from ≢ JobState.done
    → (from ≡ next) ⊎ Move from next
    → ((transition db now id next reason o).0 ≡ ok from)
      × Stands id next ((transition db now id next reason o).1)
unfolding moved_row
moved-Stands db now id from next reason o (j, e, f) live way =
    let fine = (transition_ok_iff db now id next reason o from).1 (j, e, f, live, way) in
    (fine, (moved_row next reason o now j, ok_row db now id next reason o from j fine e, refl))

moved_on :
    (now : ℕ) (j : Job) (choice : Choice) (next current : JobState) (db : Db)
    → Stands j.id current db
    → current ≢ JobState.done
    → (current ≡ next) ⊎ Move current next
    → (next ≡ j.state) ⊎ Move j.state next
    → Settled j.id j.state (
        moved next (
          transition db now j.id next
            (codes "answered: " ++ answer_label choice)
            (options choice next)))
unfolding moved
moved_on now j choice next current db h live way way' =
    let (fine, stands) =
      moved-Stands db now j.id current next (codes "answered: " ++ answer_label choice)
        (options choice next) h live way in
    let r =
      transition db now j.id next (codes "answered: " ++ answer_label choice)
        (options choice next) in
    let e : moved next r ≡ (ok (some next), r.1) = ap (λ x. moved next (x, r.1)) fine in
    subst (Settled j.id j.state) (sym e) (next, refl, stands, way')

add_live : JobState.add ≢ JobState.done
add_live e = ground (arith, e)

way_on :
    (now : ℕ) (j : Job) (choice : Choice) (next : JobState) (db : Db)
    → j.state ≢ JobState.done
    → After j.id j.state (go next) db
    → (next ≡ j.state) ⊎ Move j.state next
    → Settled j.id j.state (
        moved next (
          transition db now j.id next
            (codes "answered: " ++ answer_label choice)
            (options choice next)))
unfolding After
way_on now j choice next db live (inl h) (inl e) =
    moved_on now j choice next j.state db h live (inl (sym e)) (inl e)
way_on now j choice next db live (inl h) (inr m) =
    moved_on now j choice next j.state db h live (inr m) (inr m)
way_on now j choice next db live (inr (asks, adds, h)) way =
    moved_on now j choice next next db h (λ e. add_live (sym adds ∙ e)) (inl refl) way

unmoved :
    (j : Job) (next : JobState) (db : Db)
    → After j.id j.state (go next) db
    → is_allowed j.state next ≡ false
    → Stands j.id j.state db
unfolding After is_allowed
unmoved j next db (inl h) refused = h
unmoved j next db (inr (asks, adds, h)) refused = absurd (ground (arith, asks, adds, refused))

gone :
    (now : ℕ) (j : Job) (choice : Choice) (next : JobState) (db : Db)
    → j.state ≢ JobState.done
    → After j.id j.state (go next) db
    → Settled j.id j.state (follow now j choice (ok (go next), db))
unfolding After follow
gone now j choice next db live h = elim (Bool-cases (state_eq next j.state)) [
  | inl same ↦
      let e = (state_eq_iff next j.state).0 same in
      rw (same, follow) (way_on now j choice next db live h (inl e))
  | inr differs ↦ elim (Bool-cases (is_allowed j.state next)) [
    | inl allowed ↦
        rw (differs, allowed, follow)
          (way_on now j choice next db live h (inr ((is_allowed_iff j.state next).0 allowed)))
    | inr refused ↦
        rw (differs, refused, follow) (j.state, refl, unmoved j next db h refused, inl refl)
  ]
]

alias-Stands :
    (outside : Outside) (mal_id : Option ℕ) (name : Text) (db : Db) (id : ℕ) (s : JobState)
    → Stands id s db
    → Stands id s (alias_of_show outside mal_id name db)
unfolding alias_of_show
alias-Stands outside none name db id s h = h
alias-Stands outside (some n) name db id s h = h

torrent-Stands :
    (id i : ℕ) (hash : Text) (db : Db) (s : JobState)
    → Stands id s db
    → Stands id s (set_torrent id hash db)
unfolding set_torrent
torrent-Stands id i hash db s (j, e, f) =
    let g = λ (r : Job). record r { torrent_id = torrent_id_of hash db } in
    (g j, find_update_self id g db.jobs {j = j} (λ r. refl) e, f)

later-Stands :
    (db : Db) (now id at : ℕ) (why : Text) (s : JobState)
    → Stands id s db
    → (reschedule db now id at why).0 ≡ ok tt × Stands id s ((reschedule db now id at why).1)
later-Stands db now id at why s (j, e, f) =
    let (fine, found) = rescheduled db now id at why j e in
    (fine, (record j { next_run_at = some at; last_error = some why; updated_at = now }, found, f))

-- The outcome of the choice and what holds after it.
Carried : ℕ → JobState → Result Next × Db → Type 0
Carried id from (r, db) = (next : Next) × (r ≡ ok next) × After id from next db

kept_file :
    (outside : Outside) (j : Job) (db : Db) (e : Episode)
    → find_row j.episode_id db.episodes ≡ some e
    → Stands j.id j.state db
    → Carried j.id j.state (keep_file outside j db)
unfolding Carried After keep_file
kept_file outside j db e found h = elim (Option-cases e.file_path) [
  | inl bare ↦ rw (found, bare, keep_file) (go JobState.done, refl, inl h)
  | inr (path, at) ↦ rw (found, at, keep_file) (go JobState.done, refl, inl h)
]

kept_After :
    (id : ℕ) (from : JobState) (db : Db) → Kept id from db → After id from (go JobState.add) db
unfolding After
kept_After id from db (inl h) = inl h
kept_After id from db (inr (asks, h)) = inr (asks, refl, h)

pub waits_search : (s : JobState) → waits s ≡ true → (s ≢ JobState.done) × Move s JobState.search
unfolding waits
waits_search JobState.needs_input w = ((λ e. ground (arith, e)), Move.answer search_step)
waits_search JobState.failed w = ((λ e. ground (arith, e)), Move.retry)
waits_search JobState.search w = absurd (ground (arith, w))
waits_search _ w = absurd (ground (arith, w))

carried :
    (outside : Outside) (now : ℕ) (j : Job) (mal_id : Option ℕ) (always : Bool) (choice : Choice)
    (db : Db) (e : Episode)
    → waits j.state ≡ true
    → find_row j.episode_id db.episodes ≡ some e
    → Stands j.id j.state db
    → Carried j.id j.state (act outside now j mal_id always choice db)
unfolding Carried After act
carried outside now j mal_id always (use_this hash) db e w found h =
    let (fine, kept) =
      remembered outside always mal_id hash (set_torrent j.id hash db) j.id j.state
        (torrent-Stands j.id j.id hash db j.state h) in
    let r = remember_group outside always mal_id hash (set_torrent j.id hash db) in
    subst (Carried j.id j.state) (sym (ap (λ x. with_next (go JobState.add) (x, r.1)) fine))
      (go JobState.add, refl, kept_After j.id j.state r.1 kept)
carried outside now j mal_id always none_of_these db e w found h = (go JobState.failed, refl, inl h)
carried outside now j mal_id always search_again db e w found h = (go JobState.search, refl, inl h)
carried outside now j mal_id always wrong_release db e w found h = (go JobState.search, refl, inl h)
carried outside now j mal_id always (alias name) db e w found h =
    (go JobState.search, refl, inl (alias-Stands outside mal_id name db j.id j.state h))
carried outside now j mal_id always download db e w found h = (go JobState.add, refl, inl h)
carried outside now j mal_id always wait db e w found h =
    let at = now + 24 * 3600 in
    let (fine, later) = later-Stands db now j.id at (codes "waiting 24 h for seeds") j.state h in
    let r = reschedule db now j.id at (codes "waiting 24 h for seeds") in
    subst (Carried j.id j.state) (sym (ap (λ x. with_next (go JobState.search) (x, r.1)) fine))
      (go JobState.search, refl, inl later)
carried outside now j mal_id always pick_another db e w found h = (go JobState.search, refl, inl h)
carried outside now j mal_id always keep db e w found h = kept_file outside j db e found h
carried outside now j mal_id always replace db e w found h =
    (go (finalize_or_add j.state), refl, inl h)
carried outside now j mal_id always keep_both db e w found h =
    (go (finalize_or_add j.state), refl, inl h)
carried outside now j mal_id always batch db e w found h = (go JobState.add, refl, inl h)
carried outside now j mal_id always wait_for_singles db e w found h =
    (go JobState.search, refl, inl h)
carried outside now j mal_id always pause db e w found h = (go JobState.needs_input, refl, inl h)
carried outside now j mal_id always change_folder db e w found h = (stay, refl, h)
carried outside now j mal_id always retry_later db e w found h =
    let (live, way) = waits_search j.state w in
    let o = record default { reset_attempts = true } in
    let (fine, stands) =
      moved-Stands db now j.id j.state JobState.search (codes "retry later") o h live (inr way) in
    let r = transition db now j.id JobState.search (codes "retry later") o in
    subst (Carried j.id j.state) (sym (ap (λ x. retry (x, r.1)) fine))
      (returned JobState.search, refl, (stands, way))
carried outside now j mal_id always manual_search db e w found h = (stay, refl, h)
carried outside now j mal_id always skip_episode db e w found h = (go JobState.failed, refl, inl h)
carried outside now j mal_id always expired db e w found h = (stay, refl, h)

pub find-id : (id : ℕ) (js : List Job) {j : Job} → find_job id js ≡ some j → j.id ≡ id
unfolding find_job
find-id id [] e = ground (arith, e)
find-id id (r ∷ js) {j} e = elim (Bool-cases (r.id == id)) [
  | inl same ↦ ground (arith, e, same)
  | inr apart ↦ find-id id js {j = j} (ground (arith, e, apart))
]

alias_same :
    (outside : Outside) (mal_id : Option ℕ) (name : Text) (db : Db)
    → (alias_of_show outside mal_id name db).episodes ≡ db.episodes
unfolding alias_of_show
alias_same outside none name db = refl
alias_same outside (some n) name db = refl

pub alias_saved :
    (outside : Outside) (mal_id : Option ℕ) (a : Answer) (db : Db) (id : ℕ) (s : JobState)
    → Stands id s db
    → Stands id s (saved_alias outside mal_id a db)
      × ((saved_alias outside mal_id a db).episodes ≡ db.episodes)
unfolding saved_alias
alias_saved outside mal_id a db id s h =
    elim (Option-cases (if a.always then alias_name a.choice else none)) [
      | inl nothing ↦ rw (nothing, saved_alias) (h, refl)
      | inr (name, e) ↦
          rw (e, saved_alias)
            (alias-Stands outside mal_id name db id s h, alias_same outside mal_id name db)
    ]

followed :
    (now : ℕ) (j : Job) (choice : Choice) (next : Next) (db : Db)
    → j.state ≢ JobState.done
    → After j.id j.state next db
    → Settled j.id j.state (follow now j choice (ok next, db))
unfolding After follow
followed now j choice stay db live h = (j.state, refl, h, inl refl)
followed now j choice (go s) db live h = gone now j choice s db live h
followed now j choice (returned s) db live h = (s, refl, h.0, inr h.1)

answered :
    (outside : Outside) (now : ℕ) (q : Question) (a : Answer) (j : Job) (db : Db) (e : Episode)
    → waits j.state ≡ true
    → find_row j.episode_id db.episodes ≡ some e
    → Stands j.id j.state db
    → Settled j.id j.state (answer_job outside now q a j db)
unfolding answer_job Carried
answered outside now q a j db e w found h =
    let (stands, same) = alias_saved outside q.mal_id a db j.id j.state h in
    let db' = saved_alias outside q.mal_id a db in
    let (next, fine, after) =
      carried outside now j q.mal_id a.always a.choice db' e w
        (ap (find_row j.episode_id) same ∙ found) stands in
    let r = act outside now j q.mal_id a.always a.choice db' in
    let done = followed now j a.choice next r.1 (waits_search j.state w).0 after in
    rw (w, answer_job)
      (subst (λ x. Settled j.id j.state (follow now j a.choice (x, r.1))) (sym fine) done)

-- Any answer to the question of a job that waits on the Inbox (`needs_input` or `failed`) and whose
-- episode has a row is applied without an error, a move that the diagram forbids included: it
-- returns the state in which it leaves the job, and that is the job's state from before or
-- one that follows it in the diagram.
pub apply_answer_correct :
    (outside : Outside) (db : Db) (now : ℕ) (q : Question) (a : Answer) (id : ℕ) (j : Job)
    (e : Episode)
    → q.job_id ≡ some id
    → find_job id db.jobs ≡ some j
    → waits j.state ≡ true
    → find_row j.episode_id db.episodes ≡ some e
    → Settled id j.state (apply_answer outside db now q a)
unfolding apply_answer
apply_answer_correct outside db now q a id j e asked here w found =
    let same = find-id id db.jobs {j = j} here in
    let here' = subst (λ i. find_job i db.jobs ≡ some j) (sym same) here in
    rw (asked, here, apply_answer)
      (subst (λ i. Settled i j.state (answer_job outside now q a j db)) same
        (answered outside now q a j db e w found (j, here', refl)))
