-- ===== src/Http/Time.antt =====
-- Durations and monotonic instants (`std::time`) as nanoseconds. Their subtraction saturates at
-- zero, as `-` on ℕ does.
use genrl_downloader.Prelude.{ℕ, ◌*◌, ◌/◌}

abbrev pub from_secs : ℕ → ℕ
from_secs s = s * 1_000_000_000

abbrev pub from_millis : ℕ → ℕ
from_millis ms = ms * 1_000_000

abbrev pub as_secs : ℕ → ℕ
as_secs d = d / 1_000_000_000

abbrev pub u32_max : ℕ
u32_max = 4_294_967_295
