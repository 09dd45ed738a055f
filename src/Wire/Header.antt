-- ===== src/Wire/Header.antt =====
-- include/bbp/bbp.h: `struct bbp_header`.
use bear_boot.Prelude.{ℕ, ◌+◌, Option}
use bear_boot.Memory.{Memory, load}

abbrev pub size : ℕ
size = 160

abbrev pub checksum_offset : ℕ
checksum_offset = 152

abbrev pub major : Memory → ℕ → Option ℕ
major m hdr = load m (hdr + 16) 2

abbrev pub header_size : Memory → ℕ → Option ℕ
header_size m hdr = load m (hdr + 20) 4

abbrev pub checksum : Memory → ℕ → Option ℕ
checksum m hdr = load m (hdr + 152) 8
