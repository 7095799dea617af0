-- ===== src/Http/Policy.antt =====
-- Per-service policies (core/crates/genrl-core/src/http/policy.rs). A rate is in permits per
-- minute times 1000, which holds every default and a per-minute cap exactly.
use genrl_downloader.Prelude.{ℕ, ◌*◌, Bool, true, false, Option, none, some, List, [], ◌∷◌, map}
use genrl_downloader.Text.{Text, codes, match_text, folded}
use genrl_downloader.Http.Time.{from_secs}

pub data Service : Type 0 where
  mal jikan nyaa qbit images : Service

unfoldable pub as_str : Service → Text
as_str mal = codes "mal"
as_str jikan = codes "jikan"
as_str nyaa = codes "nyaa"
as_str qbit = codes "qbit"
as_str images = codes "images"

unfoldable pub parse : Text → Option Service
unfolding match_text folded
parse s =
    match_text
      ((codes "mal", some mal)
        ∷ (codes "jikan", some jikan)
        ∷ (codes "nyaa", some nyaa)
        ∷ (codes "nyaa-rss", some nyaa)
        ∷ (codes "qbit", some qbit)
        ∷ (codes "qbittorrent", some qbit)
        ∷ (codes "images", some images)
        ∷ (codes "image", some images)
        ∷ (codes "posters", some images)
        ∷ [])
      none (folded s)

pub record RateSpec : Type 0 where
  pub permits_per_second : ℕ  -- in 1/60_000 of a permit per second
  pub burst : ℕ
  pub per_minute_cap : Option ℕ
  pub jitter : Bool

abbrev pub default_backoff_schedule : List ℕ
default_backoff_schedule = map from_secs (5 ∷ 30 ∷ 120 ∷ 600 ∷ 3600 ∷ [])

pub record RetryPolicy : Type 0 where
  pub max_attempts : ℕ
  pub schedule : List ℕ
  pub max_total_wait : ℕ
  pub max_delay : ℕ

abbrev pub default_retry : RetryPolicy
default_retry = record {
  max_attempts = 5;
  schedule = default_backoff_schedule;
  max_total_wait = from_secs 60;
  max_delay = from_secs 3600;
}

pub record ServicePolicy : Type 0 where
  pub rate : RateSpec
  pub cache_ttl : Option ℕ
  pub max_body_bytes : ℕ
  pub timeout : ℕ
  pub retry : RetryPolicy
  pub breaker_threshold : ℕ
  pub breaker_cooldown : ℕ

abbrev pub for_service : Service → ServicePolicy
for_service mal = record {
  rate = record { permits_per_second = 60_000; burst = 3; per_minute_cap = none; jitter = false };
  cache_ttl = some (from_secs 1800);
  max_body_bytes = 5 * 1024 * 1024;
  timeout = from_secs 20;
  retry = default_retry;
  breaker_threshold = 5;
  breaker_cooldown = from_secs 900;
}
for_service jikan = record {
  rate = record {
    permits_per_second = 120_000;
    burst = 2;
    per_minute_cap = some 50;
    jitter = false;
  };
  cache_ttl = some (from_secs (7 * 24 * 3600));
  max_body_bytes = 5 * 1024 * 1024;
  timeout = from_secs 20;
  retry = record default_retry { max_attempts = 1 };
  breaker_threshold = 5;
  breaker_cooldown = from_secs 60;
}
for_service nyaa = record {
  rate = record { permits_per_second = 30_000; burst = 1; per_minute_cap = none; jitter = true };
  cache_ttl = some (from_secs 600);
  max_body_bytes = 5 * 1024 * 1024;
  timeout = from_secs 30;
  retry = default_retry;
  breaker_threshold = 5;
  breaker_cooldown = from_secs 900;
}
for_service qbit = record {
  rate = record { permits_per_second = 300_000; burst = 10; per_minute_cap = none; jitter = false };
  cache_ttl = none;
  max_body_bytes = 10 * 1024 * 1024;
  timeout = from_secs 10;
  retry = record default_retry { max_attempts = 3; max_total_wait = from_secs 35 };
  breaker_threshold = 5;
  breaker_cooldown = from_secs 900;
}
for_service images = record {
  rate = record { permits_per_second = 120_000; burst = 4; per_minute_cap = none; jitter = false };
  cache_ttl = some (from_secs (30 * 24 * 3600));
  max_body_bytes = 20 * 1024 * 1024;
  timeout = from_secs 30;
  retry = record default_retry { max_attempts = 2; max_total_wait = from_secs 10 };
  breaker_threshold = 5;
  breaker_cooldown = from_secs 900;
}
