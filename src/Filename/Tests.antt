-- ===== src/Filename/Tests.antt =====
-- Two titles of one show (core/crates/genrl-core/src/filename/normalize.rs).
use genrl_downloader.Prelude.{ℕ, ◌≡◌, ◌≤◌, some}
use genrl_downloader.Text.{codes}
use genrl_downloader.Filename.Fuzzy.{levenshtein}
use genrl_downloader.Filename.Fuzzy.Scripts.{Script}
use genrl_downloader.Filename.Fuzzy.Laws.{levenshtein_least}

levenshtein_least_example :
    (n : ℕ) × (levenshtein (codes "re zero") (codes "re hero") ≡ some n)
    × Script (codes "re zero") (codes "re hero") n
    × ((m : ℕ) → Script (codes "re zero") (codes "re hero") m → n ≤ m)
levenshtein_least_example = levenshtein_least (codes "re zero") (codes "re hero")
