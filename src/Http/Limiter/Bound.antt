-- ===== src/Http/Limiter/Bound.antt =====
-- No bucket ever hands out more than it held and was refilled with.
use genrl_downloader.Prelude.{
  ℕ, zero, suc, ◌+◌, ◌-◌, ◌*◌, ◌≤◌, ◌<◌, max, ◌≡◌, refl, ap, inl, inr, true, some, List, [], ◌∷◌,
  get_elem?, map, arith, All, Bool-cases,
}
use genrl_downloader.Http.Policy.{RateSpec}
use genrl_downloader.Http.Limiter.{Bucket, token, refill, take, new, all_ready, poll, permits, run}

-- Between two states of one bucket `spent` permits were taken.
pub record Spends (spent : ℕ) (b b' : Bucket) : Type 0 where
  pub rate_kept : b'.rate ≡ b.rate
  pub budget :
      spent * token + b'.tokens + b.last_refill * b.rate ≤ b.tokens + b'.last_refill * b.rate

elapsed_times : (now last rate : ℕ) → last ≤ now → (now - last) * rate + last * rate ≡ now * rate
elapsed_times now last rate h =
    let e : (now - last) + last ≡ now = omega arith in omega (arith, ap (λ (t : ℕ). t * rate) e)

refill-Spends : (now : ℕ) (b : Bucket) → Spends 0 b (refill now b)
unfolding refill
refill-Spends now b = ground (arith, elapsed_times now b.last_refill b.rate)

take-Spends : (b b' : Bucket) → Spends 0 b b' → token ≤ b'.tokens → Spends 1 b (take b')
unfolding take
take-Spends b b' s h = ground (arith, s.rate_kept, s.budget)

ready_at :
    (bs : List Bucket) (i : ℕ) {b : Bucket}
    → all_ready bs ≡ true
    → get_elem? bs i ≡ some b
    → token ≤ b.tokens
unfolding all_ready
ready_at [] i r e = absurd (ground arith)
ready_at (b ∷ bs) zero r e = ground arith
ready_at (b ∷ bs) (suc i) r e = ready_at bs i (ground arith) e

get_elem?-map {ℓ} :
    {A : Type ℓ} (f : A → A) (xs : List A) (i : ℕ) {x : A}
    → get_elem? xs i ≡ some x
    → get_elem? (map f xs) i ≡ some (f x)
get_elem?-map f [] i e = absurd (cc)
get_elem?-map f (x ∷ xs) zero e = cc
get_elem?-map f (x ∷ xs) (suc i) e = get_elem?-map f xs i e

poll-Spends :
    (bs : List Bucket) (now i : ℕ) {b : Bucket}
    → get_elem? bs i ≡ some b
    → (b' : Bucket) × (get_elem? (poll bs now).0 i ≡ some b')
      × Spends (permits (poll bs now).1) b b'
unfolding poll
poll-Spends bs now i {b} e =
    let at = get_elem?-map (refill now) bs i e in
    elim (Bool-cases (all_ready (map (refill now) bs))) [
      | inl r ↦ rw r (
        take (refill now b),
        get_elem?-map take (map (refill now) bs) i at,
        take-Spends b (refill now b) (refill-Spends now b) (ready_at _ i r at),
      )
      | inr n ↦ rw n (refill now b, at, refill-Spends now b)
    ]

Spends-trans : (m n : ℕ) (a b c : Bucket) → Spends m a b → Spends n b c → Spends (m + n) a c
Spends-trans m n a b c s t = record {
  rate_kept = ground (arith, s.rate_kept, t.rate_kept);
  budget = omega (
    arith,
    s.budget,
    t.budget,
    ap (λ (r : ℕ). b.last_refill * r) s.rate_kept,
    ap (λ (r : ℕ). c.last_refill * r) s.rate_kept,
  );
}

refill_by :
    (limit now : ℕ) (b : Bucket)
    → now ≤ limit
    → b.last_refill ≤ limit
    → (refill now b).last_refill ≤ limit
unfolding refill
refill_by limit now b h k = ground arith

run-Spends :
    (bs : List Bucket) (times : List ℕ) (i : ℕ) {b : Bucket}
    → get_elem? bs i ≡ some b
    → (b' : Bucket) × (get_elem? (run bs times).0 i ≡ some b') × Spends (run bs times).1 b b'
unfolding run
run-Spends bs [] i {b} e = (b, e, record { rate_kept = refl; budget = omega arith })
run-Spends bs (now ∷ times) i {b} e =
    let (b', e', s) = poll-Spends bs now i e in
    let (b'', e'', t) = run-Spends (poll bs now).0 times i e' in
    (b'', e'', Spends-trans (permits (poll bs now).1) (run (poll bs now).0 times).1 b b' b'' s t)

by-poll :
    (limit now i : ℕ) (bs : List Bucket) {b b' : Bucket}
    → now ≤ limit
    → get_elem? bs i ≡ some b
    → get_elem? (poll bs now).0 i ≡ some b'
    → b.last_refill ≤ limit
    → b'.last_refill ≤ limit
unfolding poll take
by-poll limit now i bs {b} {b'} h e e' k =
    let at = get_elem?-map (refill now) bs i e in
    let late = refill_by limit now b h k in
    elim (Bool-cases (all_ready (map (refill now) bs))) [
      | inl r ↦ ground (arith, r, at, get_elem?-map take (map (refill now) bs) i at)
      | inr n ↦ ground (arith, n)
    ]

by-run :
    (limit i : ℕ) (bs : List Bucket) (times : List ℕ) {b b' : Bucket}
    → All (λ t. t ≤ limit) times
    → get_elem? bs i ≡ some b
    → get_elem? (run bs times).0 i ≡ some b'
    → b.last_refill ≤ limit
    → b'.last_refill ≤ limit
unfolding run
by-run limit i bs [] {b} {b'} h e e' k = ground arith
by-run limit i bs (now ∷ times) {b} {b'} h e e' k =
    let (c, at, _) = poll-Spends bs now i e in
    by-run limit i (poll bs now).0 times h.1 at e' (by-poll limit now i bs h.0 e at k)

upto : (t limit rate : ℕ) → t ≤ limit → t * rate ≤ limit * rate
upto t limit rate h = grind arith

bucket_bound :
    (limit i : ℕ) (bs : List Bucket) (times : List ℕ) {b : Bucket}
    → All (λ t. t ≤ limit) times
    → get_elem? bs i ≡ some b
    → b.last_refill ≤ limit
    → (run bs times).1 * token ≤ b.tokens + (limit - b.last_refill) * b.rate
bucket_bound limit i bs times {b} h e k =
    let (b', e', s) = run-Spends bs times i e in
    let late = by-run limit i bs times h e e' k in
    omega (
      arith,
      s.budget,
      elapsed_times limit b.last_refill b.rate k,
      upto b'.last_refill limit b.rate late,
    )

-- However many tasks poll a new limiter, at whatever times up to `limit` and in whatever order, the
-- permits handed out are at most the burst plus the rate times the time since it was made; and,
-- where a per-minute cap is set, at most that cap plus the cap's rate times that time.
pub permits_bounded :
    (spec : RateSpec) (start limit : ℕ) (times : List ℕ)
    → start ≤ limit
    → All (λ t. t ≤ limit) times
    → let granted = (run (new spec start) times).1 in
      (granted * token ≤ max spec.burst 1 * token + (limit - start) * spec.permits_per_second)
      × ((cap : ℕ)
          → spec.per_minute_cap ≡ some cap
          → 0 < cap
          → granted * token ≤ cap * token + (limit - start) * (cap * 1000))
unfolding new
permits_bounded spec start limit times h by = (
  bucket_bound limit 0 (new spec start) times by refl h,
  λ cap e pos.
      bucket_bound limit 1 (new spec start) times
        {b = record {
          rate = cap * 1000;
          capacity = cap * token;
          tokens = cap * token;
          last_refill = start;
        }}
        by (ground (arith, e, pos)) h,
)
