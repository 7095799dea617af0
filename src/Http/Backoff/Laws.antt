-- ===== src/Http/Backoff/Laws.antt =====
-- `delay_for` never panics, follows the schedule and never falls on a rising one.
use genrl_downloader.Prelude.{
  ℕ, zero, suc, ◌-◌, ◌≤◌, min, max, ◌≡◌, refl, some, List, [], ◌∷◌, length, get_elem?,
  get_elem?-total, arith,
}
use genrl_downloader.Http.Backoff.{delay_for}

-- Each step is at least the one before it.
abbrev pub Rising : List ℕ → Type 0
Rising [] = Unit
Rising (x ∷ []) = Unit
Rising (x ∷ y ∷ ys) = (x ≤ y) × Rising (y ∷ ys)

elements_rise :
    (xs : List ℕ) (i j : ℕ) {a b : ℕ}
    → Rising xs
    → i ≤ j
    → get_elem? xs i ≡ some a
    → get_elem? xs j ≡ some b
    → a ≤ b
elements_rise [] i j r h p q = absurd (ground arith)
elements_rise (x ∷ xs) zero zero r h p q = ground arith
elements_rise (x ∷ []) zero (suc j) r h p q = absurd (ground arith)
elements_rise (x ∷ y ∷ ys) zero (suc j) r h p q =
    ground (arith, elements_rise (y ∷ ys) zero j {a = y} r.1 (omega arith) refl q)
elements_rise (x ∷ xs) (suc i) zero r h p q = absurd (omega arith)
elements_rise (x ∷ []) (suc i) (suc j) r h p q = absurd (ground arith)
elements_rise (x ∷ y ∷ ys) (suc i) (suc j) r h p q =
    elements_rise (y ∷ ys) i j r.1 (omega arith) p q

-- For every attempt and schedule there is a delay (indexing never panics); on a schedule whose
-- steps rise, a later attempt never waits less than an earlier one.
pub delay_for_monotone :
    (schedule : List ℕ) (i j : ℕ)
    → Rising schedule
    → i ≤ j
    → (a : ℕ) × (b : ℕ) × (delay_for i schedule ≡ some a)
      × (delay_for j schedule ≡ some b)
      × (a ≤ b)
unfolding delay_for
delay_for_monotone [] i j r h = (0, 0, refl, refl, omega arith)
delay_for_monotone (d ∷ ds) i j r h =
    let k = λ (n : ℕ). min (max n 1 - 1) (length (d ∷ ds) - 1) in
    let (a, p) = get_elem?-total (d ∷ ds) (k i) (omega arith) in
    let (b, q) = get_elem?-total (d ∷ ds) (k j) (omega arith) in
    (a, b, p, q, elements_rise (d ∷ ds) (k i) (k j) r (omega arith) p q)

pub delay_for_total :
    (attempt : ℕ) (schedule : List ℕ) → (d : ℕ) × (delay_for attempt schedule ≡ some d)
unfolding delay_for
delay_for_total attempt [] = (0, refl)
delay_for_total attempt (d ∷ ds) = get_elem?-total (d ∷ ds) _ (omega arith)
