-- ===== src/Score/Laws.antt =====
-- What a scored candidate has passed, and the order of the ranking
-- (core/crates/genrl-core/src/score/evaluate.rs and core/crates/genrl-core/src/matching/decide.rs).
use genrl_downloader.Prelude.{ℕ, ◌≤◌, Bool, true, ◌≡◌, ◌⊎◌, Option, none, some, List, [], ◌∷◌}
use genrl_downloader.Models.Shows.{ShowType}
use genrl_downloader.Rules.{Rules}
use genrl_downloader.Score.{Rejection}

abbrev pub Clear : List (Option Rejection) → Type 0
Clear [] = Unit
Clear (r ∷ rs) = (r ≡ none) × Clear rs

-- A number in the name is the wanted one, or the release is a batch; a feature's release has no
-- number, or is a batch. A name without a number says nothing of the episode.
abbrev pub GivesEpisode : Option ℕ → Option ℕ → Bool → Type 0
GivesEpisode none none batch = Unit
GivesEpisode none (some found) batch = batch ≡ true
GivesEpisode (some wanted) none batch = Unit
GivesEpisode (some wanted) (some found) batch = (wanted ≡ found) ⊎ (batch ≡ true)

-- A range of episodes holds the wanted one.
abbrev pub InRange : Option ℕ → Option (ℕ × ℕ) → Type 0
InRange (some wanted) (some (from, to)) = (from ≤ wanted) × (wanted ≤ to)
InRange _ _ = Unit

-- A type that is known is the show's.
abbrev pub IsOfType : ShowType → Option ShowType → Type 0
IsOfType wanted none = Unit
IsOfType wanted (some found) = found ≡ wanted
