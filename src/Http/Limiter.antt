-- ===== src/Http/Limiter.antt =====
-- The token-bucket limiter (core/crates/genrl-core/src/http/limiter.rs), with the f64 token counts
-- as exact multiples of 1/60_000 of a token times a nanosecond, so that a rate in 1/60_000 permits
-- per second refills `rate` units each nanosecond.
pub mod Bound
use genrl_downloader.Prelude.{
  ℕ, ◌+◌, ◌-◌, ◌*◌, ◌/◌, min, max, Bool, true, false, ◌&&◌, Option, none, some, List, [], ◌∷◌, ◌++◌,
  leb, ltb, ◌==◌, if◌then◌else◌, map,
}
use genrl_downloader.Http.Time.{from_millis}
use genrl_downloader.Http.Policy.{RateSpec}

-- One token.
abbrev pub token : ℕ
token = 60_000_000_000_000

pub record Bucket : Type 0 where
  pub rate : ℕ
  pub capacity : ℕ
  pub tokens : ℕ
  pub last_refill : ℕ

new_bucket : ℕ → ℕ → ℕ → Bucket
new_bucket rate capacity now = record {
  rate = rate;
  capacity = capacity;
  tokens = capacity;
  last_refill = now;
}

pub refill : ℕ → Bucket → Bucket
refill now b =
    let elapsed = now - b.last_refill in
    if elapsed == 0
    then b
    else record b { tokens = min (b.tokens + elapsed * b.rate) b.capacity; last_refill = now }

-- After the refill: the wait for one token, and whether there is one.
pub probe : Bucket → ℕ × Bool
probe b = if leb token b.tokens then (0, true) else ((token - b.tokens) / b.rate, false)

pub take : Bucket → Bucket
take b = record b { tokens = b.tokens - token }

unfoldable pub new : RateSpec → ℕ → List Bucket
unfolding new_bucket
new spec now =
    new_bucket spec.permits_per_second (max spec.burst 1 * token) now ∷ elim spec.per_minute_cap [
      | none ↦ []
      | some cap ↦ if ltb 0 cap then new_bucket (cap * 1000) (cap * token) now ∷ [] else []
    ]

pub all_ready : List Bucket → Bool
unfolding probe
all_ready [] = true
all_ready (b ∷ bs) = (probe b).1 && all_ready bs

pub longest : List Bucket → ℕ
unfolding probe
longest [] = 0
longest (b ∷ bs) = max (probe b).0 (longest bs)

-- One round of the loop in `acquire`, under the lock: `none` when the tokens were spent, else how
-- long to sleep before the next round (before its jitter).
pub poll : List Bucket → ℕ → List Bucket × Option ℕ
unfolding refill all_ready longest take
poll buckets now =
    let refilled = map (refill now) buckets in
    let wait = longest refilled in
    if all_ready refilled
    then (map take refilled, none)
    else (refilled, some (if wait == 0 then from_millis 1 else wait))

-- The wait that a new caller would face.
pub queued_wait : List Bucket → ℕ → List Bucket × ℕ
unfolding refill longest
queued_wait buckets now = let refilled = map (refill now) buckets in (refilled, longest refilled)

abbrev pub permits : Option ℕ → ℕ
permits none = 1
permits (some _) = 0

-- Rounds by any callers at the given times: the buckets after them, and how many got a permit.
pub run : List Bucket → List ℕ → List Bucket × ℕ
run buckets [] = (buckets, 0)
run buckets (now ∷ times) =
    let (buckets', sleep) = poll buckets now in
    let (last, n) = run buckets' times in (last, permits sleep + n)
