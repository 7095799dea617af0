-- ===== src/Rules/Tests.antt =====
-- An override of one show (core/crates/genrl-core/src/rules.rs).
use genrl_downloader.Prelude.{◌≡◌, refl, none, some, List, [], ◌∷◌}
use genrl_downloader.Text.{codes, text_eq}
use genrl_downloader.Error.{ok}
use genrl_downloader.Rules.{
  RuleRow, is_one_of, ensure_known_key, is_row, same_owner, upsert, set_override,
}

abbrev rows : List RuleRow
rows = record { mal_id = none; key = codes "groups"; value = codes "[]" } ∷ []

abbrev row : RuleRow
row = record { mal_id = some 21; key = codes "groups"; value = codes "[1]" }

abbrev rows' : List RuleRow
rows' = record { mal_id = none; key = codes "groups"; value = codes "[]" } ∷ row ∷ []

rows-set : set_override 21 (codes "groups") (codes "[1]") rows ≡ ok rows'
unfolding set_override ensure_known_key is_one_of upsert is_row same_owner text_eq
rows-set = refl
