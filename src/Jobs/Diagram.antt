-- ===== src/Jobs/Diagram.antt =====
-- The table of moves (core/crates/genrl-core/src/jobs/transitions.rs) and the diagram that its
-- comments describe.
pub mod Laws
use genrl_downloader.Prelude.{
  Bool, true, false, ◌&&◌, ◌||◌, List, [], ◌∷◌, ◌≡◌, refl, ◌≢◌, ◌↔◌, if◌then◌else◌, arith,
}
use genrl_downloader.Models.JobState.{
  JobState, search, choose, add, monitor, finalize, needs_input, blocked, failed, done, state_eq,
  is_terminal,
}

abbrev pub transitions : List (JobState × JobState)
transitions =
    (search, choose)
    ∷ (choose, add)
    ∷ (add, monitor)
    ∷ (monitor, finalize)
    ∷ (finalize, done)
    ∷ (search, needs_input)
    ∷ (search, blocked)
    ∷ (search, failed)
    ∷ (choose, needs_input)
    ∷ (choose, blocked)
    ∷ (choose, failed)
    ∷ (add, blocked)
    ∷ (add, failed)
    ∷ (monitor, search)
    ∷ (monitor, needs_input)
    ∷ (monitor, blocked)
    ∷ (monitor, failed)
    ∷ (finalize, needs_input)
    ∷ (finalize, blocked)
    ∷ (finalize, failed)
    ∷ (needs_input, search)
    ∷ (needs_input, choose)
    ∷ (needs_input, add)
    ∷ (needs_input, monitor)
    ∷ (needs_input, finalize)
    ∷ (needs_input, failed)
    ∷ (needs_input, done)
    ∷ (blocked, search)
    ∷ (blocked, choose)
    ∷ (blocked, add)
    ∷ (blocked, monitor)
    ∷ (blocked, finalize)
    ∷ (blocked, failed)
    ∷ (failed, search)
    ∷ (failed, done)
    ∷ (add, choose)
    ∷ (monitor, add)
    ∷ []

listed : JobState → JobState → List (JobState × JobState) → Bool
listed from to [] = false
listed from to ((a, b) ∷ moves) = (state_eq a from && state_eq b to) || listed from to moves

unfoldable pub is_allowed : JobState → JobState → Bool
unfolding listed
is_allowed from to =
    if state_eq from to
    then false
    else if is_terminal from
    then false
    else listed from to transitions

-- The main steps, left to right.
pub data Next : JobState → JobState → Type 0 where
  choose_next : Next search choose
  add_next : Next choose add
  monitor_next : Next add monitor
  finalize_next : Next monitor finalize

-- A main step.
pub data IsStep : JobState → Type 0 where
  search_step : IsStep search
  choose_step : IsStep choose
  add_step : IsStep add
  monitor_step : IsStep monitor
  finalize_step : IsStep finalize

-- The diagram in words: the main line ends in `done`; every step may block or fail, every step but
-- `add` may ask; `add` and `monitor` redo the step before them and a stalled torrent goes back to
-- `search`; the side states that wait hand back to any step or fail, a question may also be the
-- end; a failed job is searched again or closed.
pub data Move : JobState → JobState → Type 0 where
  forward : {s t : JobState} → Next s t → Move s t
  finish : Move finalize done
  block : {s : JobState} → IsStep s → Move s blocked
  fail : {s : JobState} → IsStep s → Move s failed
  ask : {s : JobState} → IsStep s → s ≢ add → Move s needs_input
  stall : Move monitor search
  redo_choose : Move add choose
  redo_add : Move monitor add
  answer : {s : JobState} → IsStep s → Move needs_input s
  answer_fail : Move needs_input failed
  answer_done : Move needs_input done
  resume : {s : JobState} → IsStep s → Move blocked s
  resume_fail : Move blocked failed
  retry : Move failed search
  close : Move failed done

pub ruleset moves = (
  forward, finish, block, fail, ask, stall, redo_choose, redo_add, answer, answer_fail, answer_done,
  resume, resume_fail, retry, close, choose_next, add_next, monitor_next, finalize_next,
  search_step, choose_step, add_step, monitor_step, finalize_step,
)
