-- ===== src/Planner.antt =====
-- The planner (core/crates/genrl-core/src/planner): here the user's list and its season chains
-- (list.rs). Franchise numbers, like MAL ids, are natural numbers.
pub mod Chains
pub mod Preview
pub mod Rows
pub mod Load
pub mod Apply
mod Tests
use genrl_downloader.Prelude.{
  ℕ, zero, suc, Bool, true, false, Option, none, some, List, [], ◌∷◌, ◌==◌, leb, if◌then◌else◌, map,
}
use genrl_downloader.Text.{Text}
use genrl_downloader.Models.Shows.{ListStatus, tv}
use genrl_downloader.Season.{ℤ, SeasonEntry, SeasonChain}

pub record ListEntry : Type 0 where
  pub mal_id : ℕ
  pub title : Text
  pub english_title : Option Text
  pub list_status : ListStatus
  pub watched_count : ℕ
  pub total_episodes : Option ℕ
  pub start_year : Option ℕ
  pub auto : Bool
  pub episode_offset : ℤ
  pub names : List Text
  pub franchise : ℕ
  pub season : ℕ

abbrev pub MalList : Type 0
MalList = List ListEntry

unfoldable pub airing_finished : ListEntry → Bool
airing_finished e = elim e.total_episodes [ none ↦ true | some total ↦ leb total e.watched_count ]

unfoldable pub to_season_entry : ListEntry → SeasonEntry
unfolding airing_finished
to_season_entry e = record {
  mal_id = e.mal_id;
  title = e.title;
  list_status = e.list_status;
  watched_count = e.watched_count;
  total_episodes = e.total_episodes;
  episode_offset = e.episode_offset;
  show_type = tv;
  fully_aired = airing_finished e;
}

unfoldable pub insert_number : ℕ → List ℕ → List ℕ
insert_number n [] = n ∷ []
insert_number n (m ∷ ms) = let rest = insert_number n ms in if leb n m then n ∷ m ∷ ms else m ∷ rest

-- `sort_unstable`
unfoldable pub sorted : List ℕ → List ℕ
unfolding insert_number
sorted [] = []
sorted (n ∷ ns) = insert_number n (sorted ns)

-- `dedup`
unfoldable pub unrepeated : List ℕ → List ℕ
unrepeated [] = []
unrepeated (n ∷ []) = n ∷ []
unrepeated (n ∷ m ∷ ms) = let rest = unrepeated (m ∷ ms) in if n == m then rest else n ∷ rest

unfoldable pub of_franchise : ℕ → MalList → MalList
of_franchise f [] = []
of_franchise f (e ∷ es) =
    let rest = of_franchise f es in if e.franchise == f then e ∷ rest else rest

unfoldable pub insert_season : ListEntry → MalList → MalList
insert_season e [] = e ∷ []
insert_season e (x ∷ xs) =
    let rest = insert_season e xs in if leb e.season x.season then e ∷ x ∷ xs else x ∷ rest

-- `sort_by_key`, which is stable.
unfoldable pub by_season : MalList → MalList
unfolding insert_season
by_season [] = []
by_season (e ∷ es) = insert_season e (by_season es)

unfoldable pub franchises : MalList → List ℕ
unfolding sorted unrepeated
franchises list = unrepeated (sorted (map (λ e. e.franchise) list))

-- The entries of each franchise, first season first.
unfoldable pub groups : MalList → List MalList
unfolding franchises of_franchise by_season
groups list = map (λ f. by_season (of_franchise f list)) (franchises list)

unfoldable pub chains : MalList → List SeasonChain
unfolding groups
chains list = map (map to_season_entry) (groups list)
