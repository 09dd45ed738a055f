-- ===== src/Wire.antt =====
-- include/bbp/bbp.h: the packed structures that cross the hand-off. A pointer is the address of the
-- structure; a field is read at its offset.
pub mod Header
pub mod Info
pub mod Tag
use bear_boot.Prelude.{ℕ, ◌+◌, ◌*◌, ◌^◌, List, [], ◌∷◌}

abbrev pub magic_len : ℕ
magic_len = 16

-- The literal "BEAR_BOOT", zero-filled to 16 bytes.
abbrev pub header_magic : List ℕ
header_magic =
    b'B' ∷ b'E' ∷ b'A' ∷ b'R' ∷ b'_' ∷ b'B' ∷ b'O' ∷ b'O' ∷ b'T' ∷ 0 ∷ 0 ∷ 0 ∷ 0 ∷ 0 ∷ 0 ∷ 0 ∷ []

-- The literal "BEAR_INFO", zero-filled to 16 bytes.
abbrev pub info_magic : List ℕ
info_magic =
    b'B' ∷ b'E' ∷ b'A' ∷ b'R' ∷ b'_' ∷ b'I' ∷ b'N' ∷ b'F' ∷ b'O' ∷ 0 ∷ 0 ∷ 0 ∷ 0 ∷ 0 ∷ 0 ∷ 0 ∷ []

abbrev pub version_major : ℕ
version_major = 1

abbrev pub version_minor : ℕ
version_minor = 1

-- Tag identifiers: category in the bits above 48.
abbrev pub tag_id_of : ℕ → ℕ → ℕ
tag_id_of cat id = cat * 2 ^ 48 + id

abbrev pub tag_hhdm_id : ℕ
tag_hhdm_id = tag_id_of 2 2
