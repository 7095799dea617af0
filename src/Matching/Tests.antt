-- ===== src/Matching/Tests.antt =====
-- One release that is right (core/crates/genrl-core/src/matching and score).
use genrl_downloader.Prelude.{
  ◌+◌, ◌≤◌, ◌<◌, ◌≡◌, ◌↔◌, refl, ◌⊎◌, true, false, none, some, List, [], ◌∷◌, ◌++◌, length, All,
  Bool,
}
use genrl_downloader.Text.{codes}
use genrl_downloader.Models.Shows.{tv}
use genrl_downloader.Rules
use genrl_downloader.Score.{Release, Candidate, Target, Settings, Scored}
use genrl_downloader.Score.Signal.{Scale}
use genrl_downloader.Score.Evaluate.{scored, Ranked, rank}
use genrl_downloader.Score.Order.{count, accepted, refused, IsFalling, Passed, rank_sorted}
use genrl_downloader.Matching.{auto, is_close, decide_verdict}
use genrl_downloader.Matching.Laws.{Among, auto_only_if}

abbrev op_release : Release
op_release = record {
  raw = codes "op 05";
  group = none;
  normalized_title = codes "op";
  season = none;
  episode = some 50;
  resolution = none;
  codec = none;
  is_batch = false;
  dual_audio = false;
  languages = [];
  version = none;
  year = none;
  episode_range = none;
}

abbrev candidate : Candidate
candidate = record {
  release = op_release;
  info_hash = codes "aa";
  magnet = codes "m";
  seeders = 12;
  leechers = 0;
  trusted = false;
  remake = false;
  size_bytes = 300000000;
  published_at = 90;
  uploader = none;
  show_type = some tv;
  category_id = none;
}

abbrev target : Target
target = record {
  names = codes "op" ∷ [];
  other_names = [];
  wanted_episode = some 50;
  show_type = tv;
  season = 1;
  start_year = none;
  fully_aired = false;
  total_episodes = none;
}

abbrev settings : Settings
settings = record {
  fuzzy_threshold = (92, 100);
  score_threshold = 80000;
  score_margin = 15000;
  min_episode_mb = 100;
  max_episode_mb = 2560;
  max_batch_gb = 200;
}

abbrev scale : Scale
scale = record { seeder_points = λ n. 7000; recency = λ age. 9000 }

abbrev result : Scored
result = scored scale candidate target Rules.default settings 100

rank_sorted_example :
    let two = candidate ∷ candidate ∷ [] in
    let (ranked, rejected) = rank scale target Rules.default settings 100 two in
    ((rest : List Ranked) × IsFalling (ranked ++ rest)
      × All (Passed scale target Rules.default settings 100) (ranked ++ rest)
      × ((p : Ranked → Bool)
          → count p (ranked ++ rest)
            ≡ count p (accepted scale target Rules.default settings 100 two))
      × ((rest ≡ []) ⊎ (length ranked ≡ 20)))
    × (length ranked ≤ 20)
    × (rejected ≡ refused scale target Rules.default settings 100 two)
rank_sorted_example =
    rank_sorted scale target Rules.default settings 100 (candidate ∷ candidate ∷ [])

abbrev best : Ranked
best = record {
  candidate = candidate;
  scored = record {
    signal = record { gained = 90000; lost = 0 };
    ranking = record { gained = 16000; lost = 0 };
    title_ratio = (1, 1);
    matched_name = some (codes "op");
  };
}

is_chosen : decide_verdict (best ∷ []) [] false Rules.default settings ≡ auto best false
unfolding decide_verdict
is_chosen = refl

auto_only_if_example :
    (80000 + 0 ≤ 90000)
    × Among best (best ∷ [])
    × ((best ≡ best) ⊎ (is_close settings best.scored.signal best.scored.signal ≡ true))
    × (0 < 12)
    × ((false ≡ true) ↔ (12 < 10))
    × (false ≡ true → false ≡ true)
auto_only_if_example = auto_only_if best [] [] false Rules.default settings best false is_chosen
