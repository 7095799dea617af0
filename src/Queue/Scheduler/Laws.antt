-- ===== src/Queue/Scheduler/Laws.antt =====
-- A tick keeps the limits and picks only jobs that may run.
use genrl_downloader.Prelude.{
  ℕ, suc, ◌-◌, ◌≤◌, ◌≡◌, refl, subst, ◌≢◌, ◌⊎◌, inl, inr, true, false, Option, none, some, List, [],
  ◌∷◌, ◌==◌, max, length, get_elem?, arith, All, All-append, All-map, All-get_elem?, Bool-cases,
}
use genrl_downloader.Text.{Text}
use genrl_downloader.Models.JobState.{is_active}
use genrl_downloader.Models.JobKind.{JobKind, kind_eq}
use genrl_downloader.Jobs.{Job, Db}
use genrl_downloader.Jobs.Due.{due_jobs}
use genrl_downloader.Jobs.Due.Laws.{MayRun, due_jobs_correct}
use genrl_downloader.Queue.Resume.{Probes}
use genrl_downloader.Queue.Scheduler.{
  Settings, Look, Counts, limit_for, with_count, active_of, picked, dispatch_kind, dispatch_all,
  kinds, tick,
}

length-active_of : (js : List Job) → length (active_of js) ≤ length js
unfolding active_of
length-active_of [] = omega arith
length-active_of (j ∷ js) = ground (arith, length-active_of js)

eq_of_kind_eq : (a b : JobKind) → kind_eq a b ≡ true → a ≡ b
eq_of_kind_eq JobKind.search b h = ground arith
eq_of_kind_eq _ b h = ground arith

room_kept :
    (s : Settings) (kind : JobKind) (look : Look) (before : Counts)
    → (dispatch_kind s kind look before).1 kind ≤ max (limit_for kind s) (before kind)
unfolding dispatch_kind with_count
room_kept s kind look before =
    let room = limit_for kind s - (before kind - look.ended) in
    let due = due_jobs look.db look.now (kind ∷ []) room in
    ground (arith, length-active_of due, (due_jobs_correct look.db look.now room kind).1)

others_kept :
    (s : Settings) (kind k : JobKind) (look : Look) (before : Counts)
    → kind_eq kind k ≡ false
    → (dispatch_kind s kind look before).1 k ≡ before k
unfolding dispatch_kind with_count
others_kept s kind k look before h = ground (arith, h)

kind_within :
    (s : Settings) (kind k : JobKind) (look : Look) (before : Counts)
    → (dispatch_kind s kind look before).1 k ≤ max (limit_for k s) (before k)
kind_within s kind k look before = elim (Bool-cases (kind_eq kind k)) [
  | inl same ↦
      subst (λ x. (dispatch_kind s kind look before).1 x ≤ max (limit_for x s) (before x))
        (eq_of_kind_eq kind k same) (room_kept s kind look before)
  | inr other_kind ↦ omega (arith, others_kept s kind k look before other_kind)
]

all_within :
    (s : Settings) (ks : List JobKind) (look : JobKind → Look) (before : Counts) (k : JobKind)
    → (dispatch_all s ks look before).1 k ≤ max (limit_for k s) (before k)
unfolding dispatch_all
all_within s [] look before k = omega arith
all_within s (kind ∷ ks) look before k = omega (
  arith,
  kind_within s kind k (look kind) before,
  all_within s ks look (dispatch_kind s kind (look kind) before).1 k,
)

-- After a tick no kind has more steps running than its limit allows, or than it had before.
pub tick_within_limits :
    (s : Settings) (blocking : Option Text) (probes : Probes) (at : ℕ) (db : Db)
    (look : JobKind → Look) (counts : Counts) (k : JobKind)
    → (tick s blocking probes at db look counts).2 k ≤ max (limit_for k s) (counts k)
unfolding tick
tick_within_limits s none probes at db look counts k =
    ground (arith, all_within s kinds look counts k)
tick_within_limits s (some reason) probes at db look counts k = ground arith

-- The job is a row that was due when the tick looked for its kind: it stands in a main step, its
-- kind is that one and its time has come.
abbrev pub Runs : (JobKind → Look) → JobKind × ℕ → Type 0
Runs look (kind, id) =
    (room : ℕ) × (i : ℕ) × (j : Job) × (get_elem?
        (due_jobs (look kind).db (look kind).now (kind ∷ []) room) i
      ≡ some j)
    × (j.id ≡ id)
    × MayRun (look kind).now kind j

self_at : (js : List Job) → All (λ j. (i : ℕ) × (get_elem? js i ≡ some j)) js
self_at [] = tt
self_at (j ∷ js) = ((0, refl), All-map (λ x (i, e). (suc i, e)) js (self_at js))

All-picked :
    (Q : JobKind × ℕ → Type 0) (kind : JobKind) (js : List Job)
    → All (λ j. Q (kind, j.id)) js
    → All Q (picked kind (active_of js))
unfolding active_of picked
All-picked Q kind [] h = tt
All-picked Q kind (j ∷ js) (q, h) = elim (Bool-cases (is_active j.state)) [
  | inl runs ↦ rw runs (q, All-picked Q kind js h)
  | inr skips ↦ rw skips (All-picked Q kind js h)
]

due_jobs-Runs :
    (look : JobKind → Look) (kind : JobKind) (room : ℕ)
    → All (λ j. Runs look (kind, j.id)) (due_jobs (look kind).db (look kind).now (kind ∷ []) room)
due_jobs-Runs look kind room =
    let l = look kind in
    let due = due_jobs l.db l.now (kind ∷ []) room in
    All-map
      (λ j (i, e). (
        room,
        i,
        j,
        e,
        refl,
        All-get_elem? (MayRun l.now kind) due i {a = j} (due_jobs_correct l.db l.now room kind).0 e,
      ))
      due (self_at due)

dispatch_kind-Runs :
    (s : Settings) (kind : JobKind) (look : JobKind → Look) (before : Counts)
    → All (Runs look) (dispatch_kind s kind (look kind) before).0
unfolding dispatch_kind
dispatch_kind-Runs s kind look before =
    let room = limit_for kind s - (before kind - (look kind).ended) in
    elim (Bool-cases (room == 0)) [
      | inl full ↦ rw full tt
      | inr free ↦ rw free (
          All-picked (Runs look) kind (due_jobs (look kind).db (look kind).now (kind ∷ []) room)
            (due_jobs-Runs look kind room))
    ]

dispatch_all-Runs :
    (s : Settings) (ks : List JobKind) (look : JobKind → Look) (before : Counts)
    → All (Runs look) (dispatch_all s ks look before).0
unfolding dispatch_all
dispatch_all-Runs s [] look before = tt
dispatch_all-Runs s (kind ∷ ks) look before =
    All-append (Runs look) (dispatch_kind s kind (look kind) before).0
      (dispatch_all s ks look (dispatch_kind s kind (look kind) before).1).0
      (dispatch_kind-Runs s kind look before)
      (dispatch_all-Runs s ks look (dispatch_kind s kind (look kind) before).1)

-- The switch is off, or the disk or the folder is in the way.
abbrev pub IsHeld : Settings → Option Text → Type 0
IsHeld s blocking = (s.automation_on ≡ false) ⊎ (blocking ≢ none)

-- Every job that a tick dispatches is a row that was due: of its kind, in a main step, its time
-- come. With automation off, or the disk or the folder in the way, none is dispatched, none is
-- resumed and the database is left as it was.
pub dispatched_due :
    (s : Settings) (blocking : Option Text) (probes : Probes) (at : ℕ) (db : Db)
    (look : JobKind → Look) (counts : Counts)
    → let (report, db', _) = tick s blocking probes at db look counts in
      All (Runs look) report.dispatched
      × (IsHeld s blocking → (report.dispatched ≡ []) × (report.resumed ≡ []) × (db' ≡ db))
unfolding tick
dispatched_due s blocking probes at db look counts = elim (Bool-cases s.automation_on) [
  | inr off ↦ rw off (tt, λ _. (refl, refl, refl))
  | inl on ↦ with_blocking blocking on
]
  where
    with_blocking :
        (b : Option Text)
        → s.automation_on ≡ true
        → let (report, db', _) = tick s b probes at db look counts in
          All (Runs look) report.dispatched
          × (IsHeld s b → (report.dispatched ≡ []) × (report.resumed ≡ []) × (db' ≡ db))
    with_blocking none on =
        rw on (dispatch_all-Runs s kinds look counts, λ h. absurd (ground (arith, on, h)))
    with_blocking (some r) on = rw on (tt, λ _. (refl, refl, refl))
