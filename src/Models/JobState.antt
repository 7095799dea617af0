-- ===== src/Models/JobState.antt =====
-- `JobState` of core/crates/genrl-core/src/models.rs.
use genrl_downloader.Prelude.{Bool, true, false, [], ◌∷◌}
use genrl_downloader.Text.{Text, codes, match_text, folded}

pub data JobState : Type 0 where
  search choose add monitor finalize needs_input blocked failed done : JobState

pub JobState-discrete : Discrete JobState
JobState-discrete = hlevel

abbrev pub is_terminal : JobState → Bool
is_terminal done = true
is_terminal _ = false

abbrev pub is_active : JobState → Bool
is_active search = true
is_active choose = true
is_active add = true
is_active monitor = true
is_active finalize = true
is_active _ = false

unfoldable pub as_str : JobState → Text
as_str search = codes "search"
as_str choose = codes "choose"
as_str add = codes "add"
as_str monitor = codes "monitor"
as_str finalize = codes "finalize"
as_str done = codes "done"
as_str needs_input = codes "needs_input"
as_str blocked = codes "blocked"
as_str failed = codes "failed"

unfoldable pub parse : Text → JobState
unfolding match_text folded
parse s =
    match_text
      ((codes "choose", choose)
        ∷ (codes "add", add)
        ∷ (codes "monitor", monitor)
        ∷ (codes "finalize", finalize)
        ∷ (codes "done", done)
        ∷ (codes "needs_input", needs_input)
        ∷ (codes "needsinput", needs_input)
        ∷ (codes "blocked", blocked)
        ∷ (codes "failed", failed)
        ∷ (codes "searching", search)
        ∷ (codes "downloading", monitor)
        ∷ (codes "finalizing", finalize)
        ∷ (codes "queued", search)
        ∷ [])
      search (folded s)

-- `==` on states.
abbrev pub state_eq : JobState → JobState → Bool
state_eq search search = true
state_eq choose choose = true
state_eq add add = true
state_eq monitor monitor = true
state_eq finalize finalize = true
state_eq needs_input needs_input = true
state_eq blocked blocked = true
state_eq failed failed = true
state_eq done done = true
state_eq _ _ = false
