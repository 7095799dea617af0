-- ===== src/Jobs/Move/Tests.antt =====
-- Moves of one job (core/crates/genrl-core/src/jobs/transitions.rs, backoff.rs).
use genrl_downloader.Prelude.{ℕ, ◌≡◌, refl, ◌↔◌, true, some, List, [], ◌∷◌}
use genrl_downloader.Text.{Text, codes}
use genrl_downloader.Error.{ok, err, other}
use genrl_downloader.Models.JobState.{JobState, is_active}
use genrl_downloader.Jobs.{find_job}
use genrl_downloader.Jobs.Diagram.{is_allowed}
use genrl_downloader.Jobs.Move.{MoveOptions, default, blocked_options, transition}
use genrl_downloader.Jobs.Move.Legal.{CanMove, transition_ok_iff}
use genrl_downloader.Jobs.Move.Park.{
  resumed_row, park_resume, rows_after, History, attempts-History,
}
use genrl_downloader.Jobs.Sample.{adding, queue, why, found}

moved_7 : (transition queue 30 7 JobState.monitor why default).0 ≡ ok JobState.add
unfolding transition find_job is_allowed
moved_7 = refl

no_job :
    (transition queue 30 9 JobState.monitor why default).0
    ≡ err (other (codes "no job with that id"))
unfolding transition find_job
no_job = refl

transition_ok_example :
    ((transition queue 30 7 JobState.monitor why default).0 ≡ ok JobState.add)
    ↔ CanMove queue 7 JobState.add JobState.monitor
transition_ok_example = transition_ok_iff queue 30 7 JobState.monitor why default JobState.add

active : is_active adding.state ≡ true
active = refl

park_resume_example :
    let parked = transition queue 30 7 JobState.blocked why (blocked_options adding.state) in
    let resumed = transition parked.1 60 7 adding.state why default in
    (parked.0 ≡ ok adding.state)
    × (resumed.0 ≡ ok JobState.blocked)
    × (find_job 7 resumed.1.jobs ≡ some (resumed_row 60 adding))
park_resume_example = park_resume queue 30 60 7 why why adding found active

abbrev calls : List (ℕ × JobState × Text × MoveOptions)
calls =
    (30, JobState.monitor, why, default)
    ∷ (31, JobState.search, why, default)
    ∷ (32, JobState.finalize, why, default)
    ∷ []

attempts-History_example : History adding calls (rows_after 7 queue calls)
attempts-History_example = attempts-History 7 queue calls adding found
