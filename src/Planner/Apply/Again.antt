-- ===== src/Planner/Apply/Again.antt =====
-- Planning twice.
use genrl_downloader.Prelude.{
  ℕ, ◌+◌, ◌-◌, ◌≤◌, true, ◌||◌, ◌≡◌, refl, ap, ◌∙◌, inl, inr, leb, some, List, [], ◌∷◌, ◌++◌, All,
  All-map, Bool-cases, Option-cases, arith, length,
}
use genrl_downloader.Error.{Result, ok, err}
use genrl_downloader.Filename.{Regex}
use genrl_downloader.Filename.Normalize.{Chars}
use genrl_downloader.Rules.{Json}
use genrl_downloader.Jobs.{Episode, Db}
use genrl_downloader.Jobs.Enqueue.Grow.{enqueue_search-episodes}
use genrl_downloader.Planner.{MalList}
use genrl_downloader.Planner.Preview.{
  PlannedEpisode, PlanPreview, PlanSettings, has_episode, build_preview,
}
use genrl_downloader.Planner.Preview.Laws.{IsNew, build_preview-IsNew}
use genrl_downloader.Planner.Rows.{has_show, find_number, checked, new_episode, ensure_episode}
use genrl_downloader.Planner.Apply.{
  upsert_all, then_enqueue, queue_episode, queue_each, apply_preview_capped,
}
use genrl_downloader.Jobs.Due.{added_since}
use genrl_downloader.Jobs.Ladder.{start_of_day}

-- No row is lost.
abbrev Keeps : List Episode → List Episode → Type 0
Keeps es es' = (m n : ℕ) → has_episode m n es ≡ true → has_episode m n es' ≡ true

has-append :
    (m n : ℕ) (es es' : List Episode)
    → has_episode m n (es ++ es') ≡ (has_episode m n es || has_episode m n es')
unfolding has_episode
has-append m n [] es' = refl
has-append m n (e ∷ es) es' = ground (arith, has-append m n es es')

has-checked :
    (m n now mal_id number : ℕ) (es : List Episode)
    → has_episode m n (checked now mal_id number es) ≡ has_episode m n es
unfolding has_episode checked
has-checked m n now mal_id number [] = refl
has-checked m n now mal_id number (e ∷ es) = ground (arith, has-checked m n now mal_id number es)

found-has :
    (mal_id number : ℕ) (es : List Episode) {id : ℕ}
    → find_number mal_id number es ≡ some id
    → has_episode mal_id number es ≡ true
unfolding find_number has_episode
found-has mal_id number [] {id} h = absurd (ground arith)
found-has mal_id number (e ∷ es) {id} h = ground (arith, found-has mal_id number es {id = id})

itself : (id now m n : ℕ) → has_episode m n (new_episode id now m n ∷ []) ≡ true
unfolding has_episode new_episode
itself id now m n = ground arith

ensure_episode_has :
    (now mal_id number : ℕ) (db : Db)
    → let r = ensure_episode now mal_id number db in
      Keeps db.episodes r.1.episodes
      × ((id : ℕ) → r.0 ≡ ok id → has_episode mal_id number r.1.episodes ≡ true)
unfolding ensure_episode
ensure_episode_has now mal_id number db =
    elim (Option-cases (find_number mal_id number db.episodes)) [
      | inr (old, e) ↦
          rw (e, ensure_episode)
            (
              (λ m n h. has-checked m n now mal_id number db.episodes ∙ h),
              λ id eq.
                  has-checked mal_id number now mal_id number db.episodes
                  ∙ found-has mal_id number db.episodes {id = old} e,
            )
      | inl e ↦ elim (Bool-cases (has_show mal_id db.shows)) [
        | inr unknown ↦ rw (e, unknown, ensure_episode) ((λ m n h. h), λ id eq. cc)
        | inl known ↦
            rw (e, known, ensure_episode)
              (
                (λ m n h.
                    has-append m n db.episodes (new_episode db.next_episode now mal_id number ∷ [])
                    ∙ ground (arith, h)),
                λ id eq.
                    has-append mal_id number db.episodes
                      (new_episode db.next_episode now mal_id number ∷ [])
                    ∙ ground (arith, itself db.next_episode now mal_id number),
              )
      ]
    ]

then_enqueue-episodes :
    (now : ℕ) (r : Result ℕ) (db : Db)
    → ((then_enqueue now (r, db)).1.episodes ≡ db.episodes)
      × ((id : ℕ) → (then_enqueue now (r, db)).0 ≡ ok id → (id' : ℕ) × (r ≡ ok id'))
unfolding then_enqueue
then_enqueue-episodes now (ok id) db = (enqueue_search-episodes db now id, λ x e. (id, refl))
then_enqueue-episodes now (err x) db = (refl, λ y e. absurd (ground arith))

queue_episode_has :
    (now mal_id number : ℕ) (db : Db)
    → let r = queue_episode now mal_id number db in
      Keeps db.episodes r.1.episodes
      × ((id : ℕ) → r.0 ≡ ok id → has_episode mal_id number r.1.episodes ≡ true)
unfolding queue_episode
queue_episode_has now mal_id number db =
    let made = ensure_episode now mal_id number db in
    let (keeps, has) = ensure_episode_has now mal_id number db in
    let (same, first) = then_enqueue-episodes now made.0 made.1 in
    (
      λ m n h. ap (has_episode m n) same ∙ keeps m n h,
      λ id e. let (id', e') = first id e in ap (has_episode mal_id number) same ∙ has id' e',
    )

-- The planned episode has a row.
abbrev HasRow : Db → PlannedEpisode → Type 0
HasRow db p = has_episode p.mal_id p.episode db.episodes ≡ true

-- The first `n` planned episodes have rows.
abbrev FirstHave : ℕ → Db → List PlannedEpisode → Type 0
FirstHave n db ps =
    (front rest : List PlannedEpisode) × (ps ≡ front ++ rest)
    × (length front ≡ n)
    × All (HasRow db) front

Went : ℕ → List PlannedEpisode → Db → Result ℕ × Db → Type 0
Went queued ps db r =
    Keeps db.episodes r.1.episodes
    × ((q : ℕ) → r.0 ≡ ok q → (queued ≤ q) × FirstHave (q - queued) r.1 ps)

none_more : (queued : ℕ) (ps : List PlannedEpisode) (db : Db) → Went queued ps db (ok queued, db)
unfolding Went
none_more queued ps db =
    ((λ m n h. h), λ q e. (ground (arith, e), ([], ps, refl, ground (arith, e), tt)))

continued :
    (now limit added_today queued : ℕ) (p : PlannedEpisode) (ps : List PlannedEpisode) (start : Db)
    (r : Result ℕ) (db : Db)
    → Keeps start.episodes db.episodes
    → ((id : ℕ) → r ≡ ok id → HasRow db p)
    → Went (queued + 1) ps db (queue_each now limit added_today (queued + 1) ps db)
    → Went queued (p ∷ ps) start (elim r [
      | err e ↦ (err e, db)
      | ok _ ↦ queue_each now limit added_today (queued + 1) ps db
    ])
unfolding Went
continued now limit added_today queued p ps start (err x) db keeps has h =
    (keeps, λ q e. absurd (ground arith))
continued now limit added_today queued p ps start (ok id) db keeps has h = (
  (λ m n k. h.0 m n (keeps m n k)),
  λ q e.
      let (le, (front, rest, same, len, all)) = h.1 q e in
      (
        omega arith,
        (
          p ∷ front,
          rest,
          ap (λ l. p ∷ l) same,
          omega arith,
          (h.0 p.mal_id p.episode (has id refl), all),
        ),
      ),
)

queue_each-Went :
    (now limit added_today queued : ℕ) (ps : List PlannedEpisode) (db : Db)
    → Went queued ps db (queue_each now limit added_today queued ps db)
unfolding queue_each
queue_each-Went now limit added_today queued [] db = none_more queued [] db
queue_each-Went now limit added_today queued (p ∷ ps) db =
    let step = queue_episode now p.mal_id p.episode db in
    let (keeps, has) = queue_episode_has now p.mal_id p.episode db in
    elim (Bool-cases (leb limit (added_today + queued))) [
      | inl full ↦ rw (full, queue_each) (none_more queued (p ∷ ps) db)
      | inr more ↦
          rw (more, queue_each)
            (continued now limit added_today queued p ps db step.0 step.1 keeps has
              (queue_each-Went now limit added_today (queued + 1) ps step.1))
    ]

-- Two planned episodes are one.
abbrev pub Same : PlannedEpisode → PlannedEpisode → Type 0
Same a b = (a.mal_id ≡ b.mal_id) × (a.episode ≡ b.episode)

differ : (db : Db) (a b : PlannedEpisode) → HasRow db a → IsNew db b → ¬ Same a b
differ db a b has new (e, f) = cc

-- Where applying a preview counts `q` episodes as queued, those are its first `q`; and whatever the
-- list and the settings are by then, a new preview lists none of them.
pub applied_not_offered_again :
    (chars : Chars) (now : ℕ) (list : MalList) (ps : List PlannedEpisode) (limit q : ℕ) (db : Db)
    (re : Regex) (json : Json) (later : MalList) (settings : PlanSettings) {p : PlanPreview}
    → (apply_preview_capped chars now list ps limit db).0 ≡ ok q
    → build_preview re json (apply_preview_capped chars now list ps limit db).1 later settings
      ≡ ok p
    → (front rest : List PlannedEpisode) × (ps ≡ front ++ rest)
      × (length front ≡ q)
      × All (λ a. All (λ b. ¬ Same a b) p.episodes) front
unfolding apply_preview_capped Went
applied_not_offered_again chars now list ps limit q db re json later settings {p} applied shown =
    let db' = upsert_all chars list db in
    let end = (apply_preview_capped chars now list ps limit db).1 in
    let (keeps, went) = queue_each-Went now limit (added_since db' (start_of_day now)) 0 ps db' in
    let (_, (front, rest, same, len, all)) = went q applied in
    let new = build_preview-IsNew re json end later settings {p = p} shown in
    (
      front,
      rest,
      same,
      omega arith,
      All-map (λ a has. All-map (λ b fresh. differ end a b has fresh) p.episodes new) front all,
    )
