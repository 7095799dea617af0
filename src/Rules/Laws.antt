-- ===== src/Rules/Laws.antt =====
-- Setting an override and taking it back (core/crates/genrl-core/src/rules.rs).
use genrl_downloader.Prelude.{
  ℕ, true, false, ◌≡◌, ◌≢◌, refl, ap, ◌∙◌, inl, inr, Option, none, some, List, [], ◌∷◌, Bool-cases,
  arith,
}
use genrl_downloader.Text.{Text}
use genrl_downloader.Text.Laws.{text_eq_refl}
use genrl_downloader.Error.{ok}
use genrl_downloader.Rules.{
  RuleRow, keys, is_one_of, ensure_known_key, same_owner, is_row, upsert, delete_where,
  set_override, clear_override, read,
}

same_owner_refl : (id : ℕ) → same_owner (some id) (some id) ≡ true
unfolding same_owner
same_owner_refl id = ground arith

same_owner_trans :
    (o : Option ℕ) (id : ℕ) (other : Option ℕ)
    → other ≢ some id
    → same_owner o (some id) ≡ true
    → same_owner o other ≡ false
unfolding same_owner
same_owner_trans none id other differ h = ground (arith, h)
same_owner_trans (some a) id none differ h = refl
same_owner_trans (some a) id (some b) differ h = ground (arith, h, differ)

clear-set :
    (id : ℕ) (key value : Text) (rows : List RuleRow)
    → clear_override id key (upsert (some id) key value rows) ≡ clear_override id key rows
unfolding clear_override delete_where upsert is_row
clear-set id key value [] = ground (arith, same_owner_refl id, text_eq_refl key)
clear-set id key value (r ∷ rows) = elim (Bool-cases (is_row (some id) key r)) [
  | inl same ↦ ground (arith, same)
  | inr apart ↦ ground (arith, apart, clear-set id key value rows)
]

others :
    (id : ℕ) (key value : Text) (other : Option ℕ) (rows : List RuleRow)
    → other ≢ some id
    → read other (upsert (some id) key value rows) ≡ read other rows
unfolding read upsert is_row
others id key value other [] differ =
    ground (arith, same_owner_trans (some id) id other differ (same_owner_refl id))
others id key value other (r ∷ rows) differ = elim (Bool-cases (same_owner r.mal_id (some id))) [
  | inl mine ↦ ground (
    arith,
    mine,
    same_owner_trans r.mal_id id other differ mine,
    others id key value other rows differ,
  )
  | inr apart ↦ ground (arith, apart, others id key value other rows differ)
]

set_when :
    (id : ℕ) (key value : Text) (rows rows' : List RuleRow)
    → set_override id key value rows ≡ ok rows'
    → (is_one_of keys key ≡ true) × (rows' ≡ upsert (some id) key value rows)
unfolding set_override ensure_known_key
set_when id key value rows rows' h = elim (Bool-cases (is_one_of keys key)) [
  | inl known ↦ (known, ground (arith, known, h))
  | inr strange ↦ absurd (ground (arith, strange, h))
]

-- Setting an override of a show succeeds for a known key only; then clearing it leaves the rows
-- that clearing it leaves without it, so that nothing of the value stays, and the fields that a
-- read gives for every other show and for all shows are as before.
pub override_undone :
    (id : ℕ) (key value : Text) (rows rows' : List RuleRow)
    → set_override id key value rows ≡ ok rows'
    → (is_one_of keys key ≡ true)
      × (clear_override id key rows' ≡ clear_override id key rows)
      × ((other : Option ℕ) → other ≢ some id → read other rows' ≡ read other rows)
override_undone id key value rows rows' h =
    let (known, e) = set_when id key value rows rows' h in
    (
      known,
      ap (clear_override id key) e ∙ clear-set id key value rows,
      λ other differ. ap (read other) e ∙ others id key value other rows differ,
    )
