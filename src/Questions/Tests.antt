-- ===== src/Questions/Tests.antt =====
-- A question that waits and one past its deadline (core/crates/genrl-core/src/questions/mod.rs).
use genrl_downloader.Prelude.{◌≡◌, refl, none, some, [], ◌∷◌, map, false, arith}
use genrl_downloader.Models.Shows
use genrl_downloader.Questions.{Question, Answer, all_failed, retry_later}
use genrl_downloader.Jobs.{Db}
use genrl_downloader.Jobs.Sample.{queue}
use genrl_downloader.Questions.Store.{open_questions, expire, has_id}
use genrl_downloader.Questions.Store.Laws.{IsKeyed, settle, expire_correct}

abbrev late : Question
late = record {
  id = 1;
  job_id = some 7;
  mal_id = some 21;
  kind = Shows.all_failed;
  payload = all_failed 3;
  answer = none;
  created_at = 10;
  expires_at = some 30;
}

abbrev early : Question
early = record late { id = 2; expires_at = some 90 }

abbrev pub asking : Db
asking = record queue { questions = late ∷ early ∷ []; next_question = 3 }

asking-IsKeyed : IsKeyed 3 (late ∷ early ∷ [])
unfolding has_id
asking-IsKeyed = (omega arith, refl, (omega arith, refl, tt))

expire_correct_example :
    ((expire asking 40).1.questions ≡ map (settle 40) asking.questions)
    × (open_questions ((expire asking 40).1) 40 ≡ open_questions asking 40)
    × ((expire ((expire asking 40).1) 40).0 ≡ [])
expire_correct_example = expire_correct asking 40 asking-IsKeyed

abbrev reply : Answer
reply = record { choice = retry_later; always = false }
