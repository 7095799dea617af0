-- ===== src/Planner/Tests.antt =====
-- A list of two seasons (core/crates/genrl-core/src/planner).
use genrl_downloader.Prelude.{
  ℕ, Bool, ◌≡◌, ◌≤◌, arith, refl, ◌&&◌, ◌++◌, leb, true, false, none, some, List, [], ◌∷◌, All,
  length,
}
use genrl_downloader.Text.{codes}
use genrl_downloader.Error.{ok}
use genrl_downloader.Models.Shows.{ListStatus}
use genrl_downloader.Rules
use genrl_downloader.Rules.{Json}
use genrl_downloader.Season.{pos}
use genrl_downloader.Jobs.{Db, MalEntry}
use genrl_downloader.Jobs.Due.{added_since}
use genrl_downloader.Season.Walk.{wanted, walk, wanted_from}
use genrl_downloader.Jobs.Sample.{queue, show}
use genrl_downloader.Planner.{ListEntry, MalList, groups, to_season_entry, chains}
use genrl_downloader.Planner.Chains.{count, count_all, IsFranchise, groups_partition}
use genrl_downloader.Planner.Preview.{PlannedEpisode, PlanSettings, build_preview}
use genrl_downloader.Planner.Chains.Numbers.{occurs}
use genrl_downloader.Planner.Load.{load_from_db}
use genrl_downloader.Planner.Load.Alone.{ids, loaded_alone}
use genrl_downloader.Planner.Apply.{Outside, Store, plan, apply_preview_capped}
use genrl_downloader.Planner.Apply.Cap.{Planned, plan_within_cap}
use genrl_downloader.Planner.Apply.Again.{Same, applied_not_offered_again}

abbrev outside : Outside
outside = record {
  regex = record { captures = λ pattern title. none; is_match = λ pattern title. false };
  chars = record {
    to_lowercase = λ s. s;
    is_alphanumeric = λ c. leb 97 c && leb c 122;
    deordinalled = λ s. s;
  };
  json = record { from_value = λ fields. ok Rules.default; to_value = λ rules. [] };
}

abbrev first : ListEntry
first = record {
  mal_id = 21;
  title = codes "Show";
  english_title = none;
  list_status = ListStatus.completed;
  watched_count = 12;
  total_episodes = some 12;
  start_year = none;
  auto = false;
  episode_offset = pos 0;
  names = codes "show" ∷ [];
  franchise = 5;
  season = 1;
}

abbrev second : ListEntry
second = record first {
  mal_id = 22;
  list_status = ListStatus.watching;
  watched_count = 3;
  names = codes "the return" ∷ [];
  season = 2;
}

abbrev list : MalList
list = second ∷ first ∷ []

abbrev settings : PlanSettings
settings = record {
  first_run_complete = true;
  auto_plan_to_watch = false;
  daily_torrent_cap = 10;
  first_sync_cap = 5;
}

abbrev store : Store
store = record { db = queue; pending_plan = none; last_plan_at = some 100 }

abbrev fourth : PlannedEpisode
fourth = record { mal_id = 22; title = codes "Show"; season = 2; episode = 40 }

groups_partition_example :
    ((p : ListEntry → Bool) → count_all p (groups list) ≡ count p list)
    × All (IsFranchise list) (groups list)
groups_partition_example = groups_partition list

plan_within_cap_example :
    Planned 800_000 false settings store (plan outside 800_000 list false settings store)
plan_within_cap_example = plan_within_cap outside 800_000 list false settings store

abbrev applied : Db
applied = (apply_preview_capped outside.chars 800_000 list (fourth ∷ []) 10 queue).1

one_queued : (apply_preview_capped outside.chars 800_000 list (fourth ∷ []) 10 queue).0 ≡ ok 1
unfolding apply_preview_capped added_since
one_queued = refl

none_left :
    build_preview outside.regex outside.json applied list settings
    ≡ ok (record {
      episodes = [];
      skipped = [];
      cap = 10;
      over_cap = 0;
      awaiting_confirmation = false;
    })
unfolding build_preview chains apply_preview_capped added_since wanted walk to_season_entry
    wanted_from
none_left = refl

applied_not_offered_again_example :
    (front : List PlannedEpisode) × (rest : List PlannedEpisode) × (fourth ∷ [] ≡ front ++ rest)
    × (length front ≡ 1)
    × All (λ a. All (λ b. ¬ Same a b) ([])) front
applied_not_offered_again_example =
    applied_not_offered_again outside.chars 800_000 list (fourth ∷ []) 10 1 queue outside.regex
      outside.json list settings one_queued none_left

abbrev entry : MalEntry
entry = record {
  mal_id = 21;
  list_status = codes "completed";
  watched_count = 12;
  score = none;
  updated_at = 50;
}

-- Two seasons of one show.
abbrev seasons : Db
seasons = record queue {
  shows = show ∷ record show { mal_id = 22; season = 2 } ∷ [];
  mal_entries = entry ∷ record entry { mal_id = 22; watched_count = 3 } ∷ [];
}

no_id_twice : (n : ℕ) → occurs n (ids seasons.shows) ≤ 1
unfolding occurs
no_id_twice n = ground arith

two_chains : length (groups (load_from_db outside.regex seasons)) ≡ 2
unfolding groups load_from_db
two_chains = refl

loaded_alone_example : All (λ g. length g ≡ 1) (groups (load_from_db outside.regex seasons))
loaded_alone_example = loaded_alone outside.regex seasons no_id_twice
