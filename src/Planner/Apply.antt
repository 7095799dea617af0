-- ===== src/Planner/Apply.antt =====
-- Planning and applying a plan (core/crates/genrl-core/src/planner/apply.rs). The stored preview
-- and the time of the last plan are rows of `settings`; the settings do not change meanwhile. An
-- error leaves what was written before it.
pub mod Single
pub mod Cap
pub mod Again
use genrl_downloader.Prelude.{
  ℕ, ◌+◌, ◌-◌, ◌*◌, Bool, true, false, not, ◌&&◌, Option, none, some, List, [], ◌∷◌, leb, ltb,
  if◌then◌else◌,
}
use genrl_downloader.Error.{Result, ok, err}
use genrl_downloader.Filename.Normalize.{Chars}
use genrl_downloader.Filename.{Regex}
use genrl_downloader.Rules.{Json}
use genrl_downloader.Jobs.{Db}
use genrl_downloader.Jobs.Due.{added_since}
use genrl_downloader.Jobs.Ladder.{start_of_day}
use genrl_downloader.Jobs.Enqueue.{enqueue_search}
use genrl_downloader.Planner.{ListEntry, MalList}
use genrl_downloader.Planner.Preview.{PlannedEpisode, PlanPreview, PlanSettings, build_preview}
use genrl_downloader.Planner.Rows.{upsert_show, upsert_names, ensure_episode}

-- The regular expressions, the operations on text and serde.
pub record Outside : Type 0 where
  pub regex : Regex
  pub chars : Chars
  pub json : Json

unfoldable pub upsert_all : Chars → MalList → Db → Db
unfolding upsert_show upsert_names
upsert_all chars [] db = db
upsert_all chars (e ∷ es) db = upsert_all chars es (upsert_names chars e (upsert_show e db))

unfoldable pub then_enqueue : ℕ → Result ℕ × Db → Result ℕ × Db
unfolding enqueue_search
then_enqueue now (ok id, db) = enqueue_search db now id
then_enqueue now (err e, db) = (err e, db)

-- The episode's row, and its search job.
unfoldable pub queue_episode : ℕ → ℕ → ℕ → Db → Result ℕ × Db
unfolding ensure_episode then_enqueue
queue_episode now mal_id number db = then_enqueue now (ensure_episode now mal_id number db)

-- The loop over the planned episodes; how many were queued.
unfoldable pub queue_each : ℕ → ℕ → ℕ → ℕ → List PlannedEpisode → Db → Result ℕ × Db
unfolding queue_episode
queue_each now cap added_today queued [] db = (ok queued, db)
queue_each now cap added_today queued (p ∷ ps) db = elim (leb cap (added_today + queued)) [
  | true ↦ (ok queued, db)
  | false ↦
      let (r, db') = queue_episode now p.mal_id p.episode db in
      elim r [ err e ↦ (err e, db') | ok _ ↦ queue_each now cap added_today (queued + 1) ps db' ]
]

unfoldable pub apply_preview_capped :
    Chars → ℕ → MalList → List PlannedEpisode → ℕ → Db → Result ℕ × Db
unfolding upsert_all queue_each
apply_preview_capped chars now list episodes cap db =
    let db' = upsert_all chars list db in
    queue_each now cap (added_since db' (start_of_day now)) 0 episodes db'

pub record Store : Type 0 where
  pub db : Db
  pub pending_plan : Option PlanPreview
  pub last_plan_at : Option ℕ

pub data PlanOutcome : Type 0 where
  preview : PlanPreview → PlanOutcome
  -- queued, preview
  applied : ℕ → PlanPreview → PlanOutcome

abbrev pub recheck_secs : ℕ
recheck_secs = 7 * 24 * 3600

abbrev nothing_due : PlanPreview
nothing_due = record {
  episodes = [];
  skipped = [];
  cap = 0;
  over_cap = 0;
  awaiting_confirmation = false;
}

-- The last plan is less than a week old.
unfoldable pub is_recent : ℕ → Option ℕ → Bool
is_recent now none = false
is_recent now (some last) = ltb now (last + recheck_secs)

unfoldable pub finish_plan : ℕ → PlanPreview → Store → Result ℕ × Db → Result PlanOutcome × Store
finish_plan now p s (err e, db) = (err e, record s { db = db })
finish_plan now p s (ok queued, db) =
    (ok (applied queued p), record s { db = db; last_plan_at = some now })

unfoldable pub act_on :
    Outside → ℕ → MalList → PlanSettings → PlanPreview → Store → Result PlanOutcome × Store
unfolding apply_preview_capped finish_plan
act_on outside now list settings p s =
    if not settings.first_run_complete
    then (ok (preview p), record s { pending_plan = some p })
    else finish_plan now p s
        (apply_preview_capped outside.chars now list p.episodes settings.daily_torrent_cap s.db)

unfoldable pub plan :
    Outside → ℕ → MalList → Bool → PlanSettings → Store → Result PlanOutcome × Store
unfolding build_preview is_recent act_on
plan outside now list force settings s =
    if not force && is_recent now s.last_plan_at
    then (ok (preview nothing_due), s)
    else elim (build_preview outside.regex outside.json s.db list settings) [
      | err e ↦ (err e, s)
      | ok p ↦ act_on outside now list settings p s
    ]

-- `usize::MAX`
usize_max : ℕ
usize_max = 18446744073709551615

unfoldable pub cap_of : Bool → PlanSettings → ℕ
unfolding usize_max
cap_of bypass_cap settings =
    if bypass_cap
    then usize_max
    else if not settings.first_run_complete
    then settings.first_sync_cap
    else settings.daily_torrent_cap

unfoldable pub discard_preview : Store → Store
discard_preview s = record s { pending_plan = none }

unfoldable pub finish_confirm : ℕ → Store → Result ℕ × Db → Result ℕ × Store
finish_confirm now s (err e, db) = (err e, record s { db = db })
finish_confirm now s (ok queued, db) =
    (ok queued, record s { db = db; pending_plan = none; last_plan_at = some now })

-- The stored preview, or a new one.
unfoldable pub pending_or_new : Outside → MalList → PlanSettings → Store → Result PlanPreview
unfolding build_preview
pending_or_new outside list settings s = elim s.pending_plan [
  | some p ↦ ok p
  | none ↦ build_preview outside.regex outside.json s.db list settings
]

unfoldable pub confirm_capped :
    Outside → ℕ → MalList → Bool → PlanSettings → Store → Result ℕ × Store
unfolding pending_or_new apply_preview_capped cap_of finish_confirm
confirm_capped outside now list bypass_cap settings s =
    elim (pending_or_new outside list settings s) [
      | err e ↦ (err e, s)
      | ok p ↦
          finish_confirm now s (
            apply_preview_capped outside.chars now list p.episodes (cap_of bypass_cap settings)
              s.db)
    ]
