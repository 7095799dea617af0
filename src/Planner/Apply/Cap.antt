-- ===== src/Planner/Apply/Cap.antt =====
-- How much one plan may queue.
use genrl_downloader.Prelude.{
  ℕ, ◌+◌, ◌-◌, ◌*◌, ◌≤◌, Bool, true, false, not, ◌&&◌, ◌≡◌, refl, ap, ◌⊎◌, inl, inr, subst, some,
  List, [], ◌∷◌, leb, Bool-cases, arith,
}
use genrl_downloader.Error.{Result, ok, err}
use genrl_downloader.Filename.Normalize.{Chars}
use genrl_downloader.Jobs.{Job, Db}
use genrl_downloader.Jobs.Due.{added_since}
use genrl_downloader.Jobs.Ladder.{start_of_day}
use genrl_downloader.Jobs.Enqueue.Grow.{
  Grown, Grown-refl, Grown-trans, Grown-le, enqueue_search_grows,
}
use genrl_downloader.Planner.{MalList}
use genrl_downloader.Planner.Preview.{PlannedEpisode, PlanPreview, PlanSettings, build_preview}
use genrl_downloader.Planner.Rows.{upsert_show, upsert_names, ensure_episode}
use genrl_downloader.Planner.Apply.{
  Outside, Store, upsert_all, then_enqueue, queue_episode, queue_each, apply_preview_capped,
  is_recent, plan, act_on, finish_plan, PlanOutcome, applied,
}

ensure_episode-jobs :
    (now mal_id number : ℕ) (db : Db) → (ensure_episode now mal_id number db).1.jobs ≡ db.jobs
unfolding ensure_episode
ensure_episode-jobs now mal_id number db = ground arith

then_enqueue_grows :
    (now : ℕ) (r : Result ℕ) (db : Db) → Grown 1 db.jobs (then_enqueue now (r, db)).1.jobs
unfolding then_enqueue
then_enqueue_grows now (ok id) db = enqueue_search_grows db now id
then_enqueue_grows now (err e) db = Grown-refl 1 db.jobs

pub queue_episode_grows :
    (now mal_id number : ℕ) (db : Db) → Grown 1 db.jobs (queue_episode now mal_id number db).1.jobs
unfolding queue_episode
queue_episode_grows now mal_id number db =
    let made = ensure_episode now mal_id number db in
    subst (λ jobs. Grown 1 jobs (then_enqueue now made).1.jobs)
      (ensure_episode-jobs now mal_id number db) (then_enqueue_grows now made.0 made.1)

-- What the loop leaves: the rows that were added fit what the cap had left, and so does the count.
abbrev Fits : ℕ → ℕ → ℕ → List Job → Result ℕ × Db → Type 0
Fits limit added_today queued jobs r =
    Grown (limit - (added_today + queued)) jobs r.1.jobs
    × ((q : ℕ) → r.0 ≡ ok q → (queued ≤ q) × (q - queued ≤ limit - (added_today + queued)))

continued :
    (now limit added_today queued : ℕ) (ps : List PlannedEpisode) (jobs : List Job) (r : Result ℕ)
    (db : Db)
    → leb limit (added_today + queued) ≡ false
    → Grown 1 jobs db.jobs
    → Fits limit added_today
        (queued + 1)
        db.jobs
        (queue_each now limit added_today (queued + 1) ps db)
    → Fits limit added_today queued jobs (elim r [
      | err e ↦ (err e, db)
      | ok _ ↦ queue_each now limit added_today (queued + 1) ps db
    ])
continued now limit added_today queued ps jobs (err e) db more g h =
    (Grown-le 1 (limit - (added_today + queued)) jobs db.jobs (ground arith) g, λ q x. cc)
continued now limit added_today queued ps jobs (ok _) db more g h =
    let rest = (queue_each now limit added_today (queued + 1) ps db) in
    (
      Grown-le (1 + (limit - (added_today + (queued + 1)))) (limit - (added_today + queued)) jobs
          rest.1.jobs (ground arith)
          (Grown-trans 1 (limit - (added_today + (queued + 1))) jobs db.jobs rest.1.jobs g h.0),
      λ q e. ground (arith, h.1 q e),
    )

queue_each-Fits :
    (now limit added_today queued : ℕ) (ps : List PlannedEpisode) (db : Db)
    → Fits limit added_today queued db.jobs (queue_each now limit added_today queued ps db)
unfolding queue_each
queue_each-Fits now limit added_today queued [] db = (Grown-refl _ db.jobs, λ q e. ground arith)
queue_each-Fits now limit added_today queued (p ∷ ps) db =
    elim (Bool-cases (leb limit (added_today + queued))) [
      | inl full ↦ rw (full, queue_each) (Grown-refl _ db.jobs, λ q e. ground arith)
      | inr more ↦
          let step = queue_episode now p.mal_id p.episode db in
          rw (more, queue_each)
            (continued now limit added_today queued ps db.jobs step.0 step.1 more
              (queue_episode_grows now p.mal_id p.episode db)
              (queue_each-Fits now limit added_today (queued + 1) ps step.1))
    ]

pub upsert_all_keeps :
    (chars : Chars) (es : MalList) (db : Db)
    → let db' = upsert_all chars es db in
      (db'.jobs ≡ db.jobs) × (db'.torrents ≡ db.torrents) × (db'.episodes ≡ db.episodes)
unfolding upsert_all upsert_show upsert_names
upsert_all_keeps chars [] db = (refl, refl, refl)
upsert_all_keeps chars (e ∷ es) db =
    upsert_all_keeps chars es (upsert_names chars e (upsert_show e db))

-- What the cap leaves for the rest of the day.
abbrev pub left : ℕ → ℕ → Db → ℕ
left limit now db = limit - added_since db (start_of_day now)

-- Rows were only added to the jobs, as many as the cap had left at most, each in `search`; and no
-- more episodes are counted as queued.
abbrev pub WithinCap : ℕ → ℕ → Db → Result ℕ × Db → Type 0
WithinCap limit now db r =
    Grown (left limit now db) db.jobs r.1.jobs × ((q : ℕ) → r.0 ≡ ok q → q ≤ left limit now db)

added_since-torrents :
    (d d' : Db) (since : ℕ) → d'.torrents ≡ d.torrents → added_since d' since ≡ added_since d since
unfolding added_since
added_since-torrents d d' since e = ap (λ ts. added_since (record d { torrents = ts }) since) e

apply-WithinCap :
    (chars : Chars) (now : ℕ) (list : MalList) (ps : List PlannedEpisode) (limit : ℕ) (db : Db)
    → WithinCap limit now db (apply_preview_capped chars now list ps limit db)
unfolding apply_preview_capped
apply-WithinCap chars now list ps limit db =
    let db' = upsert_all chars list db in
    let (jobs, torrents, _) = upsert_all_keeps chars list db in
    let since = start_of_day now in
    let (g, h) = queue_each-Fits now limit (added_since db' since) 0 ps db' in
    let same = added_since-torrents db db' since torrents in
    let rest = queue_each now limit (added_since db' since) 0 ps db' in
    (
      subst (λ js. Grown (left limit now db) js rest.1.jobs) jobs
          (Grown-le (limit - (added_since db' since + 0)) (left limit now db) db'.jobs rest.1.jobs
            (omega (arith, same)) g),
      λ q e. omega (arith, same, h q e),
    )

-- No plan is younger than a week.
abbrev pub WeekPassed : ℕ → Store → Type 0
WeekPassed now s = (last : ℕ) → s.last_plan_at ≡ some last → last + 7 * 24 * 3600 ≤ now

week : (now : ℕ) (s : Store) → is_recent now s.last_plan_at ≡ false → WeekPassed now s
unfolding is_recent
week now s h last e = ground (arith, h, e)

-- The database is as it was, or the plan was due and stayed within the daily cap.
abbrev pub Planned : ℕ → Bool → PlanSettings → Store → Result PlanOutcome × Store → Type 0
Planned now force settings s r =
    (r.1.db ≡ s.db)
    ⊎ ((settings.first_run_complete ≡ true)
        × ((force ≡ true) ⊎ WeekPassed now s)
        × Grown (left settings.daily_torrent_cap now s.db) s.db.jobs r.1.db.jobs
        × ((q : ℕ) (p : PlanPreview)
            → r.0 ≡ ok (applied q p)
            → q ≤ left settings.daily_torrent_cap now s.db))

finished :
    (now : ℕ) (force : Bool) (settings : PlanSettings) (p : PlanPreview) (s : Store) (r : Result ℕ)
    (db : Db)
    → settings.first_run_complete ≡ true
    → (force ≡ true) ⊎ WeekPassed now s
    → WithinCap settings.daily_torrent_cap now s.db (r, db)
    → Planned now force settings s (finish_plan now p s (r, db))
unfolding finish_plan
finished now force settings p s (err e) db f due (g, h) = inr (f, due, g, λ q x eq. cc)
finished now force settings p s (ok n) db f due (g, h) =
    inr (f, due, g, λ q x eq. ground (arith, h n refl))

acted :
    (outside : Outside) (now : ℕ) (list : MalList) (force : Bool) (settings : PlanSettings)
    (p : PlanPreview) (s : Store)
    → (force ≡ true) ⊎ WeekPassed now s
    → Planned now force settings s (act_on outside now list settings p s)
unfolding act_on
acted outside now list force settings p s due = elim (Bool-cases settings.first_run_complete) [
  | inr first ↦ inl (ground (arith, first))
  | inl f ↦
      let r =
        apply_preview_capped outside.chars now list p.episodes settings.daily_torrent_cap s.db in
      let same : finish_plan now p s r ≡ act_on outside now list settings p s = ground (arith, f) in
      subst (Planned now force settings s) same (
        finished now force settings p s r.0 r.1 f due
          (apply-WithinCap outside.chars now list p.episodes settings.daily_torrent_cap s.db))
]

why_due :
    (now : ℕ) (force : Bool) (s : Store)
    → (not force && is_recent now s.last_plan_at) ≡ false
    → (force ≡ true) ⊎ WeekPassed now s
why_due now true s h = inl refl
why_due now false s h = inr (week now s h)

previewed :
    (outside : Outside) (now : ℕ) (list : MalList) (force : Bool) (settings : PlanSettings)
    (s : Store) (r : Result PlanPreview)
    → (force ≡ true) ⊎ WeekPassed now s
    → Planned now force settings s
        (elim r [ err e ↦ (err e, s) | ok p ↦ act_on outside now list settings p s ])
previewed outside now list force settings s (err e) due = inl refl
previewed outside now list force settings s (ok p) due =
    acted outside now list force settings p s due

-- Planning changes the tables only once the first sync is confirmed, and then only if it is forced
-- or the last plan is a week old; it then adds jobs, each in `search`, at most as many as the daily
-- cap leaves after the candidates counted today, changes no job that was there, and never counts
-- more episodes as queued.
pub plan_within_cap :
    (outside : Outside) (now : ℕ) (list : MalList) (force : Bool) (settings : PlanSettings)
    (s : Store)
    → Planned now force settings s (plan outside now list force settings s)
unfolding plan
plan_within_cap outside now list force settings s =
    elim (Bool-cases (not force && is_recent now s.last_plan_at)) [
      | inl early ↦ rw (early, plan) (inl refl)
      | inr due ↦
          rw (due, plan)
            (previewed outside now list force settings s
              (build_preview outside.regex outside.json s.db list settings)
              (why_due now force s due))
    ]
