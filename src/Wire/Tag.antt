-- ===== src/Wire/Tag.antt =====
-- include/bbp/bbp.h: `struct bbp_tag_header`, and the `offset` of `struct bbp_tag_hhdm`.
use bear_boot.Prelude.{ℕ, ◌+◌, Option}
use bear_boot.Memory.{Memory, load}

abbrev pub size : ℕ
size = 32

abbrev pub checksum_offset : ℕ
checksum_offset = 24

abbrev pub tag_id : Memory → ℕ → Option ℕ
tag_id m tag = load m tag 8

abbrev pub tag_size : Memory → ℕ → Option ℕ
tag_size m tag = load m (tag + 8) 4

abbrev pub next_tag : Memory → ℕ → Option ℕ
next_tag m tag = load m (tag + 16) 8

abbrev pub checksum : Memory → ℕ → Option ℕ
checksum m tag = load m (tag + 24) 8

abbrev pub hhdm_size : ℕ
hhdm_size = 40

abbrev pub hhdm_offset : Memory → ℕ → Option ℕ
hhdm_offset m tag = load m (tag + 32) 8
