-- ===== src/Rules.antt =====
-- Download preferences (core/crates/genrl-core/src/rules.rs): the table `rules`, where a key stands
-- once for a show and once for all shows, with the JSON text of its value.
pub mod Laws
mod Tests
use genrl_downloader.Prelude.{
  ℕ, Bool, true, false, not, ◌&&◌, ◌||◌, Option, none, some, List, [], ◌∷◌, ◌++◌, ◌==◌, ltb, leb,
  if◌then◌else◌,
}
use genrl_downloader.Text.{Text, codes, text_eq}
use genrl_downloader.Error.{Result, ok, err, other, ◌>>=◌}

pub record RuleRow : Type 0 where
  pub mal_id : Option ℕ
  pub key : Text
  pub value : Text

pub data MoveMode : Type 0 where
  hardlink move copy : MoveMode

pub record Rules : Type 0 where
  pub groups : List Text
  pub preferred_resolution : Text
  pub min_resolution : Text
  pub codecs_blocked : List Text
  pub blocked_uploaders : List Text
  pub preferred_languages : List Text
  pub min_size_mb : ℕ
  pub max_size_mb : ℕ
  pub seed_auto_threshold : ℕ
  pub seed_ask_min : ℕ
  pub seed_ask_max : ℕ
  pub prefer_batch_when_finished : Bool
  pub auto_plan_to_watch : Option Bool
  pub move_mode : Option MoveMode
  -- A ratio below 0, or its value in a scale of its own.
  pub seed_ratio_target : Option (Option ℕ)

abbrev pub default : Rules
default = record {
  groups = [];
  preferred_resolution = codes "1080p";
  min_resolution = codes "720p";
  codecs_blocked = [];
  blocked_uploaders = [];
  preferred_languages = [];
  min_size_mb = 100;
  max_size_mb = 4096;
  seed_auto_threshold = 10;
  seed_ask_min = 1;
  seed_ask_max = 9;
  prefer_batch_when_finished = true;
  auto_plan_to_watch = none;
  move_mode = none;
  seed_ratio_target = none;
}

unfoldable pub validate : Rules → Result (Unit {0})
validate r =
    if ltb r.seed_ask_max r.seed_ask_min
    then err (other (codes "seed_ask_min must not exceed seed_ask_max"))
    else if ltb r.seed_auto_threshold r.seed_ask_max
    then err (other (codes "auto-download threshold must be at or above the top of the ask range"))
    else if leb r.max_size_mb r.min_size_mb
    then err (other (codes "min_size_mb must be smaller than max_size_mb"))
    else elim r.seed_ratio_target [
      | some none ↦ err (other (codes "seed_ratio_target must be non-negative"))
      | _ ↦ ok tt
    ]

abbrev pub keys : List Text
keys =
    codes "groups"
    ∷ codes "preferred_resolution"
    ∷ codes "min_resolution"
    ∷ codes "codecs_blocked"
    ∷ codes "blocked_uploaders"
    ∷ codes "preferred_languages"
    ∷ codes "min_size_mb"
    ∷ codes "max_size_mb"
    ∷ codes "seed_auto_threshold"
    ∷ codes "seed_ask_min"
    ∷ codes "seed_ask_max"
    ∷ codes "prefer_batch_when_finished"
    ∷ codes "auto_plan_to_watch"
    ∷ codes "move_mode"
    ∷ codes "seed_ratio_target"
    ∷ []

unfoldable pub is_one_of : List Text → Text → Bool
is_one_of [] key = false
is_one_of (k ∷ ks) key = text_eq k key || is_one_of ks key

unfoldable pub ensure_known_key : Text → Result (Unit {0})
unfolding is_one_of
ensure_known_key key = if is_one_of keys key then ok tt else err (other (codes "unknown rule key"))

unfoldable pub same_owner : Option ℕ → Option ℕ → Bool
same_owner none none = true
same_owner (some a) (some b) = a == b
same_owner _ _ = false

unfoldable pub is_row : Option ℕ → Text → RuleRow → Bool
unfolding same_owner
is_row mal_id key r = same_owner r.mal_id mal_id && text_eq r.key key

-- `INSERT … ON CONFLICT DO UPDATE SET value = excluded.value`
unfoldable pub upsert : Option ℕ → Text → Text → List RuleRow → List RuleRow
unfolding is_row
upsert mal_id key value [] = record { mal_id = mal_id; key = key; value = value } ∷ []
upsert mal_id key value (r ∷ rs) =
    let rest = upsert mal_id key value rs in
    if is_row mal_id key r then record r { value = value } ∷ rs else r ∷ rest

unfoldable pub delete_where : (RuleRow → Bool) → List RuleRow → List RuleRow
delete_where p [] = []
delete_where p (r ∷ rs) = let rest = delete_where p rs in if p r then rest else r ∷ rest

unfoldable pub set_override : ℕ → Text → Text → List RuleRow → Result (List RuleRow)
unfolding ensure_known_key upsert
set_override mal_id key value rows = do
  _ ← ensure_known_key key
  ok (upsert (some mal_id) key value rows)

unfoldable pub clear_override : ℕ → Text → List RuleRow → List RuleRow
unfolding delete_where is_row
clear_override mal_id key = delete_where (is_row (some mal_id) key)

unfoldable pub clear_all_overrides : ℕ → List RuleRow → List RuleRow
unfolding delete_where same_owner
clear_all_overrides mal_id = delete_where (λ r. same_owner r.mal_id (some mal_id))

-- A JSON object as its fields: what serde_json makes of them and of `Rules`.
pub record Json : Type 0 where
  pub from_value : List (Text × Text) → Result Rules
  pub to_value : Rules → List (Text × Text)

-- The fields of the global rows, or of those of a show.
unfoldable pub read : Option ℕ → List RuleRow → List (Text × Text)
unfolding same_owner
read mal_id [] = []
read mal_id (r ∷ rs) =
    let rest = read mal_id rs in
    if same_owner r.mal_id mal_id then (r.key, r.value) ∷ rest else rest

-- `Map::insert`
unfoldable pub insert_field : Text → Text → List (Text × Text) → List (Text × Text)
insert_field key value [] = (key, value) ∷ []
insert_field key value ((k, v) ∷ fields) =
    let rest = insert_field key value fields in
    if text_eq k key then (k, value) ∷ fields else (k, v) ∷ rest

unfoldable pub merge : List (Text × Text) → List (Text × Text) → List (Text × Text)
unfolding insert_field
merge fields [] = fields
merge fields ((key, value) ∷ more) = merge (insert_field key value fields) more

unfoldable pub global : Json → List RuleRow → Result Rules
unfolding read
global json rows = elim (read none rows) [ [] ↦ ok default | f ∷ fs ↦ json.from_value (f ∷ fs) ]

unfoldable pub overlaid : Json → Rules → List (Text × Text) → Result Rules
unfolding merge
overlaid json rules [] = ok rules
overlaid json rules (f ∷ fs) = json.from_value (merge (json.to_value rules) (f ∷ fs))

unfoldable pub for_show : Json → ℕ → List RuleRow → Result Rules
unfolding global overlaid read
for_show json mal_id rows = do
  rules ← global json rows
  overlaid json rules (read (some mal_id) rows)

unfoldable pub get_rules : Json → Option ℕ → List RuleRow → Result Rules
unfolding for_show global
get_rules json (some id) rows = for_show json id rows
get_rules json none rows = global json rows

unfoldable pub update_rule : Json → Option ℕ → Text → Text → List RuleRow → Result (List RuleRow)
unfolding ensure_known_key get_rules insert_field validate upsert
update_rule json mal_id key value rows = do
  _ ← ensure_known_key key
  current ← get_rules json mal_id rows
  updated ← json.from_value (insert_field key value (json.to_value current))
  _ ← validate updated
  ok (upsert mal_id key value rows)

unfoldable pub reset_rule : Option ℕ → Option Text → List RuleRow → Result (List RuleRow)
unfolding ensure_known_key delete_where is_row same_owner
reset_rule mal_id (some key) rows = do
  _ ← ensure_known_key key
  ok (delete_where (is_row mal_id key) rows)
reset_rule mal_id none rows = ok (delete_where (λ r. same_owner r.mal_id mal_id) rows)
