-- ===== src/Worker/Tests.antt =====
-- Two answers to the question of a job that waits (core/crates/genrl-core/src/worker/inbox.rs).
use genrl_downloader.Prelude.{◌≡◌, ◌||◌, ◌&&◌, leb, refl, none, some, [], ◌∷◌, true, false}
use genrl_downloader.Text.{codes}
use genrl_downloader.Models.JobState.{JobState}
use genrl_downloader.Models.Shows
use genrl_downloader.Questions.{Question, Answer, low_seeds, keep, wait}
use genrl_downloader.Jobs.{Job, Db, find_job}
use genrl_downloader.Jobs.Sample.{queue, adding, fifth}
use genrl_downloader.Worker.Episodes.{find_row}
use genrl_downloader.Worker.Inbox.{Outside}
use genrl_downloader.Worker.Inbox.Act.{waits, apply_answer}
use genrl_downloader.Worker.Inbox.Answered.{Settled, apply_answer_correct}
use genrl_downloader.Worker.Inbox.Wait.{DueAt, wait_runs_at_once}

abbrev outside : Outside
outside = record {
  chars = record {
    to_lowercase = λ s. s;
    is_alphanumeric = λ c. (leb 48 c && leb c 57) || (leb 97 c && leb c 122);
    deordinalled = λ s. s;
  };
  groups_json = λ groups. codes "[]";
  file_size = λ path. some 900;
}

abbrev waiting : Job
waiting = record adding { state = JobState.needs_input }

abbrev parked : Db
parked = record queue { jobs = waiting ∷ [] }

abbrev question : Question
question = record {
  id = 1;
  job_id = some 7;
  mal_id = some 21;
  kind = Shows.low_seeds;
  payload = low_seeds 2 (codes "show 05") (codes "magnet:") false;
  answer = none;
  created_at = 10;
  expires_at = none;
}

abbrev reply : Answer
reply = record { choice = keep; always = false }

here : find_job 7 parked.jobs ≡ some waiting
unfolding find_job
here = refl

has_row : find_row 3 parked.episodes ≡ some fifth
unfolding find_row
has_row = refl

is_waiting : waits JobState.needs_input ≡ true
unfolding waits
is_waiting = refl

apply_answer_example :
    Settled 7 JobState.needs_input (apply_answer outside parked 50 question reply)
apply_answer_example =
    apply_answer_correct outside parked 50 question reply 7 waiting fifth refl here is_waiting
      has_row

wait_runs_at_once_example :
    DueAt 50 7 (apply_answer outside parked 50 question (record { choice = wait; always = true }))
wait_runs_at_once_example =
    wait_runs_at_once outside parked 50 question true 7 waiting refl here is_waiting
