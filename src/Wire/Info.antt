-- ===== src/Wire/Info.antt =====
-- include/bbp/bbp.h: `struct bbp_info`.
use bear_boot.Prelude.{ℕ, ◌+◌, Option}
use bear_boot.Memory.{Memory, load}

abbrev pub size : ℕ
size = 144

abbrev pub checksum_offset : ℕ
checksum_offset = 136

abbrev pub major : Memory → ℕ → Option ℕ
major m info = load m (info + 16) 2

abbrev pub info_size : Memory → ℕ → Option ℕ
info_size m info = load m (info + 20) 4

abbrev pub first_tag : Memory → ℕ → Option ℕ
first_tag m info = load m (info + 120) 8

abbrev pub checksum : Memory → ℕ → Option ℕ
checksum m info = load m (info + 136) 8
