-- ===== src/Library/Tests.antt =====
-- Two names from the network (core/crates/genrl-core/src/library/formatting.rs).
use genrl_downloader.Prelude.{◌≤◌, ◌≡◌, refl, true, false, length, All}
use genrl_downloader.Text.{codes}
use genrl_downloader.Filename.Normalize.{is_empty}
use genrl_downloader.Library.Formatting.{is_separator, sanitize_component}
use genrl_downloader.Library.Formatting.Laws.{IsSafe, sanitize_component-IsSafe}
use genrl_downloader.Library.Formatting.Escape.{sanitize_component_escapes}

sanitize_component_example :
    (is_empty (sanitize_component (codes "Fate/Zero")) ≡ false)
    × (length (sanitize_component (codes "Fate/Zero")) ≤ 120)
    × All IsSafe (sanitize_component (codes "Fate/Zero"))
sanitize_component_example = sanitize_component-IsSafe (codes "Fate/Zero")

slash : is_separator b'/' ≡ true
unfolding is_separator
slash = refl

sanitize_component_escapes_example : sanitize_component (codes "/ .. /") ≡ codes ".."
sanitize_component_escapes_example = sanitize_component_escapes b'/' b'/' slash slash
