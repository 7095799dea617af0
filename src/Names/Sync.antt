-- ===== src/Names/Sync.antt =====
-- Replacing the names of a show from a sync (core/crates/genrl-core/src/names.rs).
use genrl_downloader.Prelude.{
  ℕ, true, false, ◌||◌, ◌≡◌, refl, sym, ap, subst, ◌∙◌, inl, inr, List, [], ◌∷◌, ◌++◌, All,
  All-append, Bool-cases, arith,
}
use mathlib.Core.List.{append-nil, append_assoc}
use genrl_downloader.Text.{Text, text_eq}
use genrl_downloader.Text.Laws.{text_eq_refl}
use genrl_downloader.Filename.Normalize.{Chars, is_empty}
use genrl_downloader.Names.{
  NameSource, NameRow, normalize_alias, is_named, any_named, new_row, add, is_synced, delete_rows,
  add_all, replace_from_sync,
}
use genrl_downloader.Names.Laws.{any_named-append}

-- The table has grown by rows of the show `id`.
abbrev Grown : ℕ → List NameRow → List NameRow → Type 0
Grown id rows rows' = (new : List NameRow) × (rows' ≡ rows ++ new) × All (λ r. r.mal_id ≡ id) new

-- A name with a form that is not empty stands in the table.
abbrev pub Found : Chars → ℕ → List NameRow → Text → Type 0
Found chars id rows name =
    is_empty (normalize_alias chars name) ≡ false
    → any_named id (normalize_alias chars name) rows ≡ true

named_stays :
    (id : ℕ) (t : Text) (rows new : List NameRow)
    → any_named id t rows ≡ true
    → any_named id t (rows ++ new) ≡ true
named_stays id t rows new h = any_named-append id t rows new ∙ ground (arith, h)

named_self :
    (id : ℕ) (t : Text) (rows : List NameRow) (s : NameRow)
    → s.mal_id ≡ id
    → s.normalized ≡ t
    → (any_named id t rows || any_named id t (s ∷ [])) ≡ true
unfolding any_named is_named
named_self id t rows s e f =
    ground (arith, e, subst (λ u. text_eq u t ≡ true) (sym f) (text_eq_refl t))

add_grows :
    (chars : Chars) (id : ℕ) (name : Text) (source : NameSource) (priority : ℕ)
    (rows : List NameRow)
    → Grown id rows ((add chars id name source priority rows).1)
      × Found chars id ((add chars id name source priority rows).1) name
unfolding add
add_grows chars id name source priority rows =
    let t = normalize_alias chars name in
    let s = new_row chars id name source priority in
    elim (Bool-cases (is_empty t)) [
      | inl blank ↦
          (([], ground (arith, blank, append-nil rows), tt), λ k. ground (arith, blank, k))
      | inr k ↦ elim (Bool-cases (any_named id t rows)) [
        | inl taken ↦
            (([], ground (arith, k, taken, append-nil rows), tt), λ _. ground (arith, k, taken))
        | inr h ↦ (
          (s ∷ [], ground (arith, k, h), (refl, tt)),
          λ _.
              ap (any_named id t) (ground (arith, k, h))
              ∙ any_named-append id t rows (s ∷ [])
              ∙ named_self id t rows s refl refl,
        )
      ]
    ]

add_all_grows :
    (chars : Chars) (id : ℕ) (names : List (Text × NameSource × ℕ)) (rows : List NameRow)
    → Grown id rows (add_all chars id names rows)
      × All (λ n. Found chars id (add_all chars id names rows) n.0) names
unfolding add_all
add_all_grows chars id [] rows = (([], sym (append-nil rows), tt), tt)
add_all_grows chars id ((name, source, priority) ∷ names) rows =
    let ((first, e, own), found) = add_grows chars id name source priority rows in
    let ((rest, f, owns), all) =
      add_all_grows chars id names ((add chars id name source priority rows).1) in
    (
      (
        first ++ rest,
        f ∙ ap (λ r. r ++ rest) e ∙ append_assoc rows first rest,
        All-append (λ r. r.mal_id ≡ id) first rest own owns,
      ),
      (
        (λ k.
            ap (any_named id (normalize_alias chars name)) f
            ∙ named_stays id (normalize_alias chars name)
                ((add chars id name source priority rows).1) rest (found k)),
        all,
      ),
    )

-- Replacing the names of a show from a sync keeps every row of another show and every alias of the
-- user, in their order, puts new rows of that show behind them, and afterwards each name of the
-- list whose normalized form is not empty stands in the table.
pub replace_from_sync_keeps :
    (chars : Chars) (id : ℕ) (names : List (Text × NameSource × ℕ)) (rows : List NameRow)
    → ((new : List NameRow) × (replace_from_sync chars id names rows
          ≡ delete_rows (is_synced id) rows ++ new)
        × All (λ r. r.mal_id ≡ id) new)
      × All (λ n. Found chars id (replace_from_sync chars id names rows) n.0) names
unfolding replace_from_sync
replace_from_sync_keeps chars id names rows =
    add_all_grows chars id names (delete_rows (is_synced id) rows)
