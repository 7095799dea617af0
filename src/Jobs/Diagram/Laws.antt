-- ===== src/Jobs/Diagram/Laws.antt =====
-- The table of moves is the diagram, and where its moves lead.
use genrl_downloader.Prelude.{true, ◌≡◌, refl, ◌↔◌, arith}
use genrl_downloader.Models.JobState.{JobState, search}
use genrl_downloader.Jobs.Diagram.{
  is_allowed, choose_next, add_next, monitor_next, finalize_next, search_step, choose_step,
  add_step, monitor_step, finalize_step, Move, forward, finish, block, fail, ask, stall,
  redo_choose, redo_add, answer, answer_fail, answer_done, resume, resume_fail, retry, close, moves,
}

allowed-Move : (s t : JobState) → is_allowed s t ≡ true → Move s t
unfolding is_allowed
allowed-Move search t h = grind (arith, moves)
allowed-Move _ t h = grind (arith, moves)

Move-allowed : {s t : JobState} → Move s t → is_allowed s t ≡ true
unfolding is_allowed
Move-allowed (forward choose_next) = refl
Move-allowed (forward add_next) = refl
Move-allowed (forward monitor_next) = refl
Move-allowed (forward finalize_next) = refl
Move-allowed finish = refl
Move-allowed (block search_step) = refl
Move-allowed (block choose_step) = refl
Move-allowed (block add_step) = refl
Move-allowed (block monitor_step) = refl
Move-allowed (block finalize_step) = refl
Move-allowed (fail search_step) = refl
Move-allowed (fail choose_step) = refl
Move-allowed (fail add_step) = refl
Move-allowed (fail monitor_step) = refl
Move-allowed (fail finalize_step) = refl
Move-allowed (ask search_step h) = refl
Move-allowed (ask choose_step h) = refl
Move-allowed (ask add_step h) = absurd (h refl)
Move-allowed (ask monitor_step h) = refl
Move-allowed (ask finalize_step h) = refl
Move-allowed stall = refl
Move-allowed redo_choose = refl
Move-allowed redo_add = refl
Move-allowed (answer search_step) = refl
Move-allowed (answer choose_step) = refl
Move-allowed (answer add_step) = refl
Move-allowed (answer monitor_step) = refl
Move-allowed (answer finalize_step) = refl
Move-allowed answer_fail = refl
Move-allowed answer_done = refl
Move-allowed (resume search_step) = refl
Move-allowed (resume choose_step) = refl
Move-allowed (resume add_step) = refl
Move-allowed (resume monitor_step) = refl
Move-allowed (resume finalize_step) = refl
Move-allowed resume_fail = refl
Move-allowed retry = refl
Move-allowed close = refl

-- The table of moves is the diagram: `is_allowed` says yes to exactly the moves of `Move`.
pub is_allowed_iff : (s t : JobState) → (is_allowed s t ≡ true) ↔ Move s t
is_allowed_iff s t = (allowed-Move s t, Move-allowed)
