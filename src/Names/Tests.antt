-- ===== src/Names/Tests.antt =====
-- A table with a synced name and an alias (core/crates/genrl-core/src/names.rs).
use genrl_downloader.Prelude.{ℕ, refl, ◌||◌, ◌&&◌, leb, List, [], ◌∷◌}
use genrl_downloader.Text.{Text, codes, text_eq, match_text, is_whitespace}
use genrl_downloader.Filename.Normalize.{Chars, is_empty, words, join, normalize}
use genrl_downloader.Names.{
  NameSource, mal, user, NameRow, any_named, normalize_alias, new_row, add, replace_from_sync,
  remove,
}
use genrl_downloader.Names.Laws.{IsTable, names-IsTable}

abbrev ascii : Chars
ascii = record {
  to_lowercase = λ s. s;
  is_alphanumeric = λ c. (leb 48 c && leb c 57) || (leb 97 c && leb c 122);
  deordinalled = λ s. s;
}

abbrev rows : List NameRow
rows = new_row ascii 21 (codes "one piece") mal 0 ∷ new_row ascii 21 (codes "op") user 9 ∷ []

abbrev synced : List (Text × NameSource × ℕ)
synced = (codes "wan pisu", mal, 0) ∷ []

rows-IsTable : IsTable ascii rows
unfolding any_named text_eq normalize_alias normalize is_empty words join match_text is_whitespace
rows-IsTable = (refl, refl, refl, (refl, refl, refl, tt))

names-IsTable_example :
    IsTable ascii ((add ascii 21 (codes "op!") user 9 rows).1)
    × IsTable ascii ((remove ascii 21 (codes "op!") rows).1)
    × IsTable ascii (replace_from_sync ascii 21 synced rows)
names-IsTable_example = names-IsTable ascii 21 (codes "op!") user 9 synced rows rows-IsTable
