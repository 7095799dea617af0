-- ===== src/Names/Laws.antt =====
-- What the table of names keeps (core/crates/genrl-core/src/names.rs).
use genrl_downloader.Prelude.{
  ℕ, Bool, true, false, ◌||◌, ◌≡◌, refl, sym, subst, ◌∙◌, inl, inr, List, [], ◌∷◌, ◌++◌, Bool-cases,
  arith,
}
use genrl_downloader.Text.{Text, text_eq}
use genrl_downloader.Text.Laws.{text_eq_refl, eq_of_text_eq}
use genrl_downloader.Filename.Normalize.{Chars, is_empty}
use genrl_downloader.Names.{
  NameSource, NameRow, normalize_alias, is_named, any_named, new_row, add, is_synced, delete_rows,
  add_all, replace_from_sync, remove,
}

-- No two rows of a show have the same normalized form, which is that of the name and not empty.
abbrev pub IsTable : Chars → List NameRow → Type 0
IsTable chars [] = Unit
IsTable chars (r ∷ rs) =
    (any_named r.mal_id r.normalized rs ≡ false)
    × (r.normalized ≡ normalize_alias chars r.name)
    × (is_empty r.normalized ≡ false)
    × IsTable chars rs

pub any_named-append :
    (id : ℕ) (t : Text) (xs ys : List NameRow)
    → any_named id t (xs ++ ys) ≡ (any_named id t xs || any_named id t ys)
unfolding any_named
any_named-append id t [] ys = refl
any_named-append id t (x ∷ xs) ys = ground (arith, any_named-append id t xs ys)

text_eq_sym : (s t : Text) → text_eq s t ≡ true → text_eq t s ≡ true
text_eq_sym s t h = subst (λ u. text_eq t u ≡ true) (sym (eq_of_text_eq s t h)) (text_eq_refl t)

-- Two rows name the same form or not, whichever is asked first.
is_named_sym :
    (r s : NameRow)
    → is_named s.mal_id s.normalized r ≡ false
    → is_named r.mal_id r.normalized s ≡ false
unfolding is_named
is_named_sym r s h = elim (Bool-cases (text_eq s.normalized r.normalized)) [
  | inl same ↦ ground (arith, h, same, text_eq_sym s.normalized r.normalized same)
  | inr other ↦ ground (arith, other)
]

unnamed_row :
    (r s : NameRow) (rows : List NameRow)
    → any_named s.mal_id s.normalized (r ∷ rows) ≡ false
    → (is_named s.mal_id s.normalized r ≡ false) × (any_named s.mal_id s.normalized rows ≡ false)
unfolding any_named
unnamed_row r s rows h = ground (arith, h)

append_row :
    (chars : Chars) (rows : List NameRow) (s : NameRow)
    → any_named s.mal_id s.normalized rows ≡ false
    → s.normalized ≡ normalize_alias chars s.name
    → is_empty s.normalized ≡ false
    → IsTable chars rows
    → IsTable chars (rows ++ (s ∷ []))
unfolding any_named
append_row chars [] s h e k w = (refl, e, k, tt)
append_row chars (r ∷ rows) s h e k w =
    let (first, rest) = unnamed_row r s rows h in
    (
      any_named-append r.mal_id r.normalized rows (s ∷ [])
          ∙ ground (arith, w.0, is_named_sym r s first),
      w.1,
      w.2,
      append_row chars rows s rest e k w.3,
    )

fewer :
    (p : NameRow → Bool) (id : ℕ) (t : Text) (rows : List NameRow)
    → any_named id t rows ≡ false
    → any_named id t (delete_rows p rows) ≡ false
unfolding any_named delete_rows
fewer p id t [] h = h
fewer p id t (r ∷ rows) h = elim (Bool-cases (p r)) [
  | inl drop ↦ ground (arith, drop, h, fewer p id t rows)
  | inr stay ↦ ground (arith, stay, h, fewer p id t rows)
]

delete_rows-IsTable :
    (chars : Chars) (p : NameRow → Bool) (rows : List NameRow)
    → IsTable chars rows
    → IsTable chars (delete_rows p rows)
unfolding delete_rows
delete_rows-IsTable chars p [] w = w
delete_rows-IsTable chars p (r ∷ rows) w = elim (Bool-cases (p r)) [
  | inl drop ↦
      subst (IsTable chars) {x = delete_rows p rows} (ground (arith, drop))
        (delete_rows-IsTable chars p rows w.3)
  | inr stay ↦
      subst (IsTable chars) {x = r ∷ delete_rows p rows} (ground (arith, stay))
        (fewer p r.mal_id r.normalized rows w.0, w.1, w.2, delete_rows-IsTable chars p rows w.3)
]

add-IsTable :
    (chars : Chars) (id : ℕ) (name : Text) (source : NameSource) (priority : ℕ)
    (rows : List NameRow)
    → IsTable chars rows
    → IsTable chars ((add chars id name source priority rows).1)
unfolding add
add-IsTable chars id name source priority rows w =
    elim (Bool-cases (is_empty (normalize_alias chars name))) [
      | inl blank ↦ subst (λ r. IsTable chars r) (ground (arith, blank)) w
      | inr k ↦ elim (Bool-cases (any_named id (normalize_alias chars name) rows)) [
        | inl taken ↦ subst (λ r. IsTable chars r) (ground (arith, k, taken)) w
        | inr h ↦
            subst (λ r. IsTable chars r) (ground (arith, k, h))
              (append_row chars rows (new_row chars id name source priority) h refl k w)
      ]
    ]

add_all-IsTable :
    (chars : Chars) (id : ℕ) (names : List (Text × NameSource × ℕ)) (rows : List NameRow)
    → IsTable chars rows
    → IsTable chars (add_all chars id names rows)
unfolding add_all
add_all-IsTable chars id [] rows w = w
add_all-IsTable chars id ((name, source, priority) ∷ names) rows w =
    add_all-IsTable chars id names ((add chars id name source priority rows).1)
      (add-IsTable chars id name source priority rows w)

-- Adding a name, removing one, and replacing the names of a show from a sync keep the table of names
-- well-formed: no two rows of a show share a normalized form, and each row's form is that of its
-- name and is not empty.
pub names-IsTable :
    (chars : Chars) (id : ℕ) (name : Text) (source : NameSource) (priority : ℕ)
    (names : List (Text × NameSource × ℕ)) (rows : List NameRow)
    → IsTable chars rows
    → IsTable chars ((add chars id name source priority rows).1)
      × IsTable chars ((remove chars id name rows).1)
      × IsTable chars (replace_from_sync chars id names rows)
unfolding remove replace_from_sync
names-IsTable chars id name source priority names rows w = (
  add-IsTable chars id name source priority rows w,
  delete_rows-IsTable chars (is_named id (normalize_alias chars name)) rows w,
  add_all-IsTable chars id names (delete_rows (is_synced id) rows)
      (delete_rows-IsTable chars (is_synced id) rows w),
)
