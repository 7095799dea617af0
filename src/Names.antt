-- ===== src/Names.antt =====
-- The names of a show (core/crates/genrl-core/src/names.rs): the table `show_names`, oldest row
-- first, with `UNIQUE (mal_id, normalized)`.
pub mod Laws
pub mod Sync
mod Tests
use genrl_downloader.Prelude.{
  ℕ, Bool, true, false, not, ◌&&◌, ◌||◌, List, [], ◌∷◌, ◌++◌, map, ◌==◌, ltb, if◌then◌else◌,
}
use genrl_downloader.Text.{Text, codes, text_eq, match_text}
use genrl_downloader.Filename.Normalize.{Chars, normalize, is_empty, dedup}

pub data NameSource : Type 0 where
  mal jikan user : NameSource

pub record NameEntry : Type 0 where
  pub name : Text
  pub normalized : Text
  pub priority : ℕ
  pub source : NameSource

pub record NameRow : Type 0 where
  pub mal_id : ℕ
  pub name : Text
  pub normalized : Text
  pub priority : ℕ
  pub source : NameSource

abbrev abbreviations : List (Text × Text)
abbreviations =
    (codes "knk", codes "kumo no mukou yami nakutemo")
    ∷ (codes "oregairu", codes "yahari ore no seishun love come wa machigatteiru")
    ∷ (codes "snk", codes "shingeki no kyojin")
    ∷ (codes "aot", codes "shingeki no kyojin")
    ∷ (codes "mha", codes "boku no hero academia")
    ∷ (codes "opm", codes "one punch man")
    ∷ (codes "fma", codes "fullmetal alchemist")
    ∷ (codes "fmab", codes "fullmetal alchemist brotherhood")
    ∷ (codes "hxh", codes "hunter x hunter")
    ∷ (codes "nnt", codes "non non biyori")
    ∷ (codes "kyoukai", codes "kyoukai no kanata")
    ∷ (codes "kks", codes "kyoukai no kanata")
    ∷ []

unfoldable pub normalize_alias : Chars → Text → Text
normalize_alias chars input = let base = normalize chars input in match_text abbreviations base base

unfoldable pub is_named : ℕ → Text → NameRow → Bool
is_named mal_id normalized r = r.mal_id == mal_id && text_eq r.normalized normalized

unfoldable pub any_named : ℕ → Text → List NameRow → Bool
unfolding is_named
any_named mal_id normalized [] = false
any_named mal_id normalized (r ∷ rs) =
    is_named mal_id normalized r || any_named mal_id normalized rs

abbrev pub new_row : Chars → ℕ → Text → NameSource → ℕ → NameRow
new_row chars mal_id name source priority = record {
  mal_id = mal_id;
  name = name;
  normalized = normalize_alias chars name;
  priority = priority;
  source = source;
}

-- Whether the table grew, and the table.
unfoldable pub add : Chars → ℕ → Text → NameSource → ℕ → List NameRow → Bool × List NameRow
unfolding any_named
add chars mal_id name source priority rows =
    let normalized = normalize_alias chars name in
    if is_empty normalized
    then (false, rows)
    else if any_named mal_id normalized rows
    then (false, rows)
    else (true, rows ++ (new_row chars mal_id name source priority ∷ []))

unfoldable pub is_synced : ℕ → NameRow → Bool
is_synced mal_id r = r.mal_id == mal_id && elim r.source [ user ↦ false | _ ↦ true ]

unfoldable pub delete_rows : (NameRow → Bool) → List NameRow → List NameRow
delete_rows p [] = []
delete_rows p (r ∷ rs) = let rest = delete_rows p rs in if p r then rest else r ∷ rest

unfoldable pub add_all : Chars → ℕ → List (Text × NameSource × ℕ) → List NameRow → List NameRow
unfolding add
add_all chars mal_id [] rows = rows
add_all chars mal_id ((name, source, priority) ∷ names) rows =
    add_all chars mal_id names ((add chars mal_id name source priority rows).1)

unfoldable pub replace_from_sync :
    Chars → ℕ → List (Text × NameSource × ℕ) → List NameRow → List NameRow
unfolding delete_rows is_synced add_all
replace_from_sync chars mal_id names rows =
    add_all chars mal_id names (delete_rows (is_synced mal_id) rows)

unfoldable pub remove : Chars → ℕ → Text → List NameRow → Bool × List NameRow
unfolding any_named delete_rows is_named
remove chars mal_id name rows =
    let normalized = normalize_alias chars name in
    (any_named mal_id normalized rows, delete_rows (is_named mal_id normalized) rows)

-- `ORDER BY priority, id`
unfoldable pub insert_entry : NameEntry → List NameEntry → List NameEntry
insert_entry e [] = e ∷ []
insert_entry e (f ∷ fs) =
    let rest = insert_entry e fs in if ltb f.priority e.priority then f ∷ rest else e ∷ f ∷ fs

unfoldable pub load : Chars → ℕ → List NameRow → List NameEntry
unfolding insert_entry
load chars mal_id [] = []
load chars mal_id (r ∷ rs) =
    let rest = load chars mal_id rs in
    if r.mal_id == mal_id
    then insert_entry
        (record {
          name = r.name;
          normalized = normalize_alias chars r.name;
          priority = r.priority;
          source = r.source;
        })
        rest
    else rest

-- `NameSet::search_order`
unfoldable pub search_order : List NameEntry → List Text
search_order entries = dedup (map (λ e. e.normalized) entries)

-- `NameSet::contains`
unfoldable pub contains : Text → List NameEntry → Bool
contains normalized [] = false
contains normalized (e ∷ es) = text_eq e.normalized normalized || contains normalized es
