-- ===== src/Planner/Load/Alone.antt =====
-- The chains of the list that is read from the database (core/crates/genrl-core/src/planner/list.rs,
-- `load_from_db` and `chains`).
use genrl_downloader.Prelude.{
  ℕ, ◌+◌, ◌≤◌, ◌<◌, true, ◌&&◌, ◌≡◌, refl, ap, ◌∙◌, Option, none, some, List, [], ◌∷◌, ◌==◌,
  if◌then◌else◌, map, All, All-map, length, arith, Bool-cases, inl, inr,
}
use genrl_downloader.Filename.{Regex}
use genrl_downloader.Names.{NameRow}
use genrl_downloader.Jobs.{Show, MalEntry, Db}
use genrl_downloader.Planner.{
  ListEntry, MalList, sorted, of_franchise, by_season, franchises, groups,
}
use genrl_downloader.Planner.Chains.{count, count-by_season, count-of_franchise}
use genrl_downloader.Planner.Chains.Numbers.{occurs, occurs-sorted, occurs-unrepeated_zero}
use genrl_downloader.Planner.Load.{
  find_entry, loaded_entry, insert_title, joined, named_entries, load_from_db,
}

abbrev numbers : MalList → List ℕ
numbers list = map (λ e. e.franchise) list

named-numbers : (rows : List NameRow) (es : MalList) → numbers (named_entries rows es) ≡ numbers es
unfolding named_entries
named-numbers rows [] = refl
named-numbers rows (e ∷ es) = ap (λ ns. e.franchise ∷ ns) (named-numbers rows es)

occurs-insert_title :
    (n : ℕ) (e : ListEntry) (es : MalList)
    → occurs n (numbers (insert_title e es)) ≡ occurs n (numbers (e ∷ es))
unfolding insert_title occurs
occurs-insert_title n e [] = refl
occurs-insert_title n e (x ∷ xs) = ground (arith, occurs-insert_title n e xs)

-- The shows' own numbers.
abbrev pub ids : List Show → List ℕ
ids ss = map (λ s. s.mal_id) ss

added_row :
    (re : Regex) (n : ℕ) (s : Show) (rest : MalList) (o : Option MalEntry)
    → occurs n (
        numbers (elim o as (λ _. MalList) [
          | none ↦ rest
          | some m ↦ insert_title (loaded_entry re s m) rest
        ]))
      ≤ (if s.mal_id == n then 1 else 0) + occurs n (numbers rest)
unfolding occurs loaded_entry
added_row re n s rest none = omega arith
added_row re n s rest (some m) = omega (arith, occurs-insert_title n (loaded_entry re s m) rest)

occurs-joined :
    (re : Regex) (ms : List MalEntry) (n : ℕ) (ss : List Show)
    → occurs n (numbers (joined re ms ss)) ≤ occurs n (ids ss)
unfolding joined occurs
occurs-joined re ms n [] = omega arith
occurs-joined re ms n (s ∷ ss) =
    omega
      (arith, added_row re n s (joined re ms ss) (find_entry s.mal_id ms), occurs-joined re ms n ss)

occurs_in : (ns : List ℕ) → All (λ n. 0 < occurs n ns) ns
unfolding occurs
occurs_in [] = tt
occurs_in (n ∷ ns) = (ground arith, All-map (λ m h. omega arith) ns (occurs_in ns))

occurs-franchises :
    (list : MalList) (f : ℕ) → 0 < occurs f (franchises list) → 0 < occurs f (numbers list)
unfolding franchises
occurs-franchises list f h =
    let same = occurs-sorted f (numbers list) in
    elim (Bool-cases (occurs f (numbers list) == 0)) [
      | inl gone ↦
          let none_left =
            occurs-unrepeated_zero f (sorted (numbers list)) (same ∙ ground (arith, gone)) in
          absurd (omega (arith, none_left))
      | inr there ↦ ground (arith, there)
    ]

length-count : (es : MalList) → length es ≡ count (λ _. true) es
length-count [] = refl
length-count (e ∷ es) = omega (arith, length-count es)

count-occurs :
    (f : ℕ) (es : MalList) → count (λ e. e.franchise == f && true) es ≡ occurs f (numbers es)
unfolding occurs
count-occurs f [] = refl
count-occurs f (e ∷ es) = ground (arith, count-occurs f es)

length-group :
    (f : ℕ) (list : MalList) → length (by_season (of_franchise f list)) ≡ occurs f (numbers list)
length-group f list =
    length-count (by_season (of_franchise f list))
    ∙ count-by_season (λ _. true) (of_franchise f list)
    ∙ count-of_franchise (λ _. true) f list
    ∙ count-occurs f list

each_alone :
    (list : MalList) (fs : List ℕ)
    → All (λ f. occurs f (numbers list) ≡ 1) fs
    → All (λ g. length g ≡ 1) (map (λ f. by_season (of_franchise f list)) fs)
each_alone list [] h = tt
each_alone list (f ∷ fs) h = (length-group f list ∙ h.0, each_alone list fs h.1)

-- In the list that is read from the database, where no two shows have the same MAL id, every season
-- chain is a single show: no chain has a second season to walk to.
pub loaded_alone :
    (re : Regex) (db : Db)
    → ((n : ℕ) → occurs n (ids db.shows) ≤ 1)
    → All (λ g. length g ≡ 1) (groups (load_from_db re db))
unfolding groups load_from_db
loaded_alone re db once =
    let list = load_from_db re db in
    each_alone list (franchises list) (
      All-map
        (λ f h. omega (
          arith,
          once f,
          occurs-franchises list f h,
          occurs-joined re db.mal_entries f db.shows,
          ap (occurs f) (named-numbers db.names (joined re db.mal_entries db.shows)),
        ))
        (franchises list) (occurs_in (franchises list)))
