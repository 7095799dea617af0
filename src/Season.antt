-- ===== src/Season.antt =====
-- The season chain (core/crates/genrl-core/src/season): what the list wants next and what a release
-- is good for. An episode number is in tenths (a release may be 6.5); counts are natural numbers.
pub mod Number
pub mod Walk
pub mod Decide
mod Tests
use genrl_downloader.Prelude.{
  ℕ, zero, suc, ◌+◌, ◌-◌, Bool, true, false, ◌||◌, Option, none, some, List, [], ◌∷◌, max, leb, ltb,
  ◌==◌, if◌then◌else◌, length, get_elem?,
}
use genrl_downloader.Text.{Text}
use genrl_downloader.Models.Shows.{ListStatus, ShowType}

-- The integers, over the numbers that the program's counts are.
pub data ℤ : Type 0 where
  pos : ℕ → ℤ
  -- -(n + 1)
  negsuc : ℕ → ℤ

pub record SeasonEntry : Type 0 where
  pub mal_id : ℕ
  pub title : Text
  pub list_status : ListStatus
  pub watched_count : ℕ
  pub total_episodes : Option ℕ
  pub episode_offset : ℤ
  pub show_type : ShowType
  pub fully_aired : Bool

-- `SeasonChain`: the entries, first season first.
abbrev pub SeasonChain : Type 0
SeasonChain = List SeasonEntry

pub record Wanted : Type 0 where
  pub mal_id : ℕ
  pub title : Text
  pub season : ℕ
  pub episode : Option ℕ

-- What a reason says; the code formats it as text.
pub data WhyNot : Type 0 where
  is_on_hold is_dropped is_manual is_fully_watched : Text → WhyNot
  nothing_left : WhyNot

pub data Want : Type 0 where
  wants : Wanted → Want
  -- reason, fully_watched
  skip : WhyNot → Bool → Want

unfoldable pub find_entry : SeasonChain → ℕ → Option SeasonEntry
find_entry [] mal_id = none
find_entry (e ∷ es) mal_id = if e.mal_id == mal_id then some e else find_entry es mal_id

-- `iter().position(…)`
unfoldable pub position : SeasonChain → ℕ → Option ℕ
position [] mal_id = none
position (e ∷ es) mal_id =
    if e.mal_id == mal_id
    then some 0
    else elim (position es mal_id) [ none ↦ none | some n ↦ some (suc n) ]

unfoldable pub by_season : SeasonChain → ℕ → Option SeasonEntry
by_season chain season =
    if ltb season 1 || ltb (length chain) season then none else get_elem? chain (season - 1)

total_from : ℕ → SeasonChain → Option ℕ
total_from total [] = some total
total_from total (e ∷ es) = elim e.total_episodes [
  | none ↦ none
  | some n ↦ total_from (total + n) es
]

-- `&entries[..n]`, `none` where it panics.
unfoldable pub first : ℕ → SeasonChain → Option SeasonChain
first zero es = some []
first (suc n) [] = none
first (suc n) (e ∷ es) = elim (first n es) [ none ↦ none | some xs ↦ some (e ∷ xs) ]

-- The episodes of all seasons before this one: `none` for a panic, `some none` for an unknown count.
unfoldable pub episodes_before : SeasonChain → ℕ → Option (Option ℕ)
unfolding first total_from
episodes_before chain season = elim (first (max season 1 - 1) chain) [
  | none ↦ none
  | some es ↦ some (total_from 0 es)
]
