-- ===== src/Worker/Inbox/Laws.antt =====
-- An answer moves its job along the diagram (core/crates/genrl-core/src/worker/inbox.rs).
use genrl_downloader.Prelude.{
  ℕ, Bool, true, false, ◌≡◌, refl, sym, subst, ◌∙◌, inl, inr, ◌⊎◌, Option, none, some, List, [],
  ◌∷◌, ◌==◌, Bool-cases, Option-cases, ==_iff, arith,
}
use genrl_downloader.Text.{Text, codes, text_eq, trim, folded}
use genrl_downloader.Filename.Normalize.{is_empty}
use genrl_downloader.Rules.{RuleRow, is_one_of, ensure_known_key, upsert, set_override}
use genrl_downloader.Error.{ok}
use genrl_downloader.Models.JobState.{JobState, state_eq}
use genrl_downloader.Questions.{Question, use_this}
use genrl_downloader.Jobs.{Job, Db, find_job, update_job}
use genrl_downloader.Jobs.Move.Legal.{state_eq_iff}
use genrl_downloader.Questions.Store.{set_answer, filter}
use genrl_downloader.Jobs.Move.Rows.{find_update_self, find_update_other}
use genrl_downloader.Worker.Inbox.{Outside, torrent_id_of}
use genrl_downloader.Worker.Inbox.Resolve.{
  matched, sent_to_add, resume_job, resolve_one, resolve_each, auto_resolve_show_questions,
  is_review, group_of, save_group, remember_group,
}

-- The job `id` is there, in the state `s`.
abbrev pub Stands : ℕ → JobState → Db → Type 0
Stands id s db = (j : Job) × (find_job id db.jobs ≡ some j) × (j.state ≡ s)

-- It is in the state `s` as before, or was sent from the Inbox to `add`.
abbrev pub Kept : ℕ → JobState → Db → Type 0
Kept id s db = Stands id s db ⊎ ((s ≡ JobState.needs_input) × Stands id JobState.add db)

sent_cases :
    (torrent : Option ℕ) (r : Job)
    → ((sent_to_add torrent r).state ≡ r.state)
      ⊎ ((r.state ≡ JobState.needs_input) × ((sent_to_add torrent r).state ≡ JobState.add))
unfolding sent_to_add
sent_cases torrent r = elim (Bool-cases (state_eq r.state JobState.needs_input)) [
  | inl asks ↦ inr ((state_eq_iff r.state JobState.needs_input).0 asks, ground (arith, asks))
  | inr moved ↦ inl (ground (arith, moved))
]

sent-id : (torrent : Option ℕ) (r : Job) → (sent_to_add torrent r).id ≡ r.id
unfolding sent_to_add
sent-id torrent r = elim (Bool-cases (state_eq r.state JobState.needs_input)) [
  | inl asks ↦ ground (arith, asks)
  | inr moved ↦ ground (arith, moved)
]

resumed :
    (id : ℕ) (s : JobState) (i : Option ℕ) (hash : Text) (db : Db)
    → Stands id s db
    → Kept id s (resume_job i hash db)
unfolding resume_job
resumed id s none hash db h = inl h
resumed id s (some i) hash db (j, e, f) =
    let t = torrent_id_of hash db in
    elim (Bool-cases (id == i)) [
      | inr apart ↦ inl (
        j,
        find_update_other i id (sent_to_add t) db.jobs (sent-id t) (ground (arith, apart)) ∙ e,
        f,
      )
      | inl same ↦
          let e' = subst (λ k. find_job k db.jobs ≡ some j) ((==_iff id i).0 same) e in
          let found =
            subst (λ k. find_job k (update_job i (sent_to_add t) db.jobs) ≡ some (sent_to_add t j))
              (sym ((==_iff id i).0 same))
              (find_update_self i (sent_to_add t) db.jobs {j = j} (sent-id t) e') in
          elim (sent_cases t j) [
            | inl stays ↦ inl (sent_to_add t j, found, stays ∙ f)
            | inr (asks, goes) ↦ inr (sym f ∙ asks, (sent_to_add t j, found, goes))
          ]
    ]

resolved_one :
    (id : ℕ) (s : JobState) (group : Text) (q : Question) (db : Db)
    → Stands id s db
    → Kept id s (resolve_one group q db)
unfolding resolve_one
resolved_one id s group q db h = elim (Option-cases (matched group q.payload)) [
  | inl missed ↦ rw (missed, resolve_one) (inl h)
  | inr (o, hit) ↦
      rw (hit, resolve_one)
        (resumed id s q.job_id o.info_hash
          (record db {
            questions =
                set_answer q.id (record { choice = use_this o.info_hash; always = true })
                  db.questions;
          })
          h)
]

resolved_each :
    (id : ℕ) (s : JobState) (group : Text) (qs : List Question) (db : Db)
    → Kept id s db
    → Kept id s (resolve_each group qs db)
unfolding resolve_each
resolved_each id s group [] db h = h
resolved_each id s group (q ∷ qs) db (inl h) =
    resolved_each id s group qs (resolve_one group q db) (resolved_one id s group q db h)
resolved_each id s group (q ∷ qs) db (inr (asks, h)) =
    resolved_each id s group qs (resolve_one group q db)
      (elim (resolved_one id JobState.add group q db h) [
        | inl added ↦ inr (asks, added)
        | inr (e, added) ↦ inr (asks, added)
      ])

kept_by_resolve :
    (mal_id : ℕ) (group : Text) (db : Db) (id : ℕ) (s : JobState)
    → Stands id s db
    → Kept id s (auto_resolve_show_questions mal_id group db)
unfolding auto_resolve_show_questions
kept_by_resolve mal_id group db id s h =
    resolved_each id s (folded group) (filter (is_review mal_id) db.questions) db (inl h)

groups_set :
    (mal_id : ℕ) (value : Text) (rows : List RuleRow)
    → set_override mal_id (codes "groups") value rows
      ≡ ok (upsert (some mal_id) (codes "groups") value rows)
unfolding set_override ensure_known_key is_one_of text_eq
groups_set mal_id value rows = refl

saved :
    (outside : Outside) (mal_id : ℕ) (group : Text) (db : Db) (id : ℕ) (s : JobState)
    → Stands id s db
    → (save_group outside mal_id group db).0 ≡ ok tt
      × Kept id s ((save_group outside mal_id group db).1)
unfolding save_group find_job
saved outside mal_id group db id s h =
    let value = outside.groups_json (trim group ∷ []) in
    let rules = upsert (some mal_id) (codes "groups") value db.rules in
    elim (Bool-cases (is_empty (trim group))) [
      | inl blank ↦ rw (blank, save_group) (refl, inl h)
      | inr full ↦
          rw (full, groups_set mal_id value db.rules, save_group)
            (refl, kept_by_resolve mal_id (trim group) (record db { rules = rules }) id s h)
    ]

pub remembered :
    (outside : Outside) (always : Bool) (mal_id : Option ℕ) (hash : Text) (db : Db) (id : ℕ)
    (s : JobState)
    → Stands id s db
    → (remember_group outside always mal_id hash db).0 ≡ ok tt
      × Kept id s ((remember_group outside always mal_id hash db).1)
unfolding remember_group
remembered outside true (some mal_id) hash db id s h = elim (Option-cases (group_of hash db)) [
  | inl absent ↦ rw (absent, remember_group) (refl, inl h)
  | inr (group, e) ↦ rw (e, remember_group) (saved outside mal_id group db id s h)
]
remembered outside true none hash db id s h = (refl, inl h)
remembered outside false (some mal_id) hash db id s h = (refl, inl h)
remembered outside false none hash db id s h = (refl, inl h)
