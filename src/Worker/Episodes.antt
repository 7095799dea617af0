-- ===== src/Worker/Episodes.antt =====
-- The episode rows that the worker writes (core/crates/genrl-core/src/planner/db_ops.rs,
-- `ensure_episode`, `mark_done` and `mark_missing`).
use genrl_downloader.Prelude.{ℕ, Option, none, some, List, [], ◌∷◌, ◌==◌, if◌then◌else◌}
use genrl_downloader.Text.{Text}
use genrl_downloader.Jobs.{Episode, Db, missing, done}

unfoldable pub find_row : ℕ → List Episode → Option Episode
find_row id [] = none
find_row id (e ∷ es) = if e.id == id then some e else find_row id es

-- `UPDATE episodes … WHERE id = ?1`
unfoldable pub update_row : ℕ → (Episode → Episode) → List Episode → List Episode
update_row id f [] = []
update_row id f (e ∷ es) = if e.id == id then f e ∷ update_row id f es else e ∷ update_row id f es

unfoldable pub mark_done : ℕ → Text → ℕ → Db → Db
unfolding update_row
mark_done id path size db = record db {
  episodes =
      update_row id (λ e. record e { state = done; file_path = some path; size = some size })
        db.episodes;
}

unfoldable pub mark_missing : ℕ → Db → Db
unfolding update_row
mark_missing id db = record db {
  episodes = update_row id (λ e. record e { state = missing }) db.episodes;
}
