-- ===== src/Queue/Resume/Laws.antt =====
-- What resuming changes.
use genrl_downloader.Prelude.{◌≡◌, true, some, [], unwrap_or}
use genrl_downloader.Text.{Text}
use genrl_downloader.Models.JobState.{JobState}
use genrl_downloader.Jobs.{Job}
use genrl_downloader.Queue.Resume.{Probes, cleared}

-- The row remembers a state to return to, and its blocker has cleared.
abbrev pub MayResume : Probes → Job → JobState → Type 0
MayResume p j from = (j.blocked_from ≡ some from) × (cleared p j (unwrap_or j.last_error []) ≡ true)
