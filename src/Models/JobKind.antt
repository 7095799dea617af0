-- ===== src/Models/JobKind.antt =====
-- `JobKind` of core/crates/genrl-core/src/models.rs: which limiter a job's step spends.
use genrl_downloader.Prelude.{Bool, true, false, [], ◌∷◌}
use genrl_downloader.Text.{Text, codes, match_text, folded}

pub data JobKind : Type 0 where
  search add monitor finalize : JobKind

unfoldable pub as_str : JobKind → Text
as_str search = codes "search"
as_str add = codes "add"
as_str monitor = codes "monitor"
as_str finalize = codes "finalize"

unfoldable pub parse : Text → JobKind
unfolding match_text folded
parse s =
    match_text ((codes "add", add) ∷ (codes "monitor", monitor) ∷ (codes "finalize", finalize) ∷ [])
      search (folded s)

-- `==` on kinds.
abbrev pub kind_eq : JobKind → JobKind → Bool
kind_eq search search = true
kind_eq add add = true
kind_eq monitor monitor = true
kind_eq finalize finalize = true
kind_eq _ _ = false
