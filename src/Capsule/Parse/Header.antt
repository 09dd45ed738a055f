-- ===== src/Capsule/Parse/Header.antt =====
-- The header that `bbp_v2_parse` of v2/bbp_v2.c accepts, and the reads that return.
use bear_boot.Prelude.{
  ℕ, ◌+◌, ◌-◌, ◌≤◌, ◌≡◌, inl, inr, refl, ap, ◌∙◌, true, false, ◌!=◌, bit_and, some, List, [], ◌∷◌,
  arith, length, Bool-cases, Ensures, Returns,
}
use bear_boot.Memory.{Memory, load_bytes, IsMapped}
use bear_boot.Memory.Loads.{
  IsMapped-part, IsMapped-prefix, load-Returns, load_bytes-Returns, load_bytes-suc,
}
use bear_boot.Crc.{crc64_init, crc64_update, crc64_final}
use bear_boot.Capsule.{ok, zeros, bytes_equal, crc_with_zero_checksum}
use bear_boot.Capsule.Parse.{HeaderFields, read_header, check_header}
use bear_boot.Capsule.Parse.Entries.{IsBounded}

pub bytes_equal-Returns :
    (m : Memory) (a : ℕ) (ys : List ℕ)
    → IsMapped m a (length ys)
    → Ensures (λ same. same ≡ true → load_bytes m a (length ys) ≡ some ys) (bytes_equal m a ys)
unfolding bytes_equal load_bytes
bytes_equal-Returns m a [] mapped = (true, refl, λ _. refl)
bytes_equal-Returns m a (y ∷ ys) mapped =
    let (x, ex) = mapped a (omega arith) (omega arith) in
    let (rest, er, k) =
      bytes_equal-Returns m (a + 1) ys (λ z u v. mapped z (omega arith) (omega arith)) in
    elim (Bool-cases (x != y)) [
      | inl other ↦ (false, rw (ex, other) refl, λ g. cc)
      | inr same ↦
          let eq : x ≡ y = ground arith in (rest, rw (ex, same) er, λ g. rw (ex, k g, eq) refl)
    ]

pub bytes_equal-known :
    (m : Memory) (a : ℕ) (ys : List ℕ)
    → load_bytes m a (length ys) ≡ some ys
    → bytes_equal m a ys ≡ some true
unfolding bytes_equal
bytes_equal-known m a [] e = refl
bytes_equal-known m a (y ∷ ys) e =
    let (x, rest, ex, er, shape) = load_bytes-suc m a (length ys) (y ∷ ys) e in
    let head : x ≡ y = cc in
    let tail : rest ≡ ys = cc in
    let same : (x != y) ≡ false = ground arith in
    rw (ex, same) (bytes_equal-known m (a + 1) ys (er ∙ ap some tail))

pub read_header-Returns : (m : Memory) (a : ℕ) → IsMapped m a 64 → Returns (read_header m a)
unfolding read_header
read_header-Returns m a mapped =
    let part = λ (o n : ℕ) (fits : o + n ≤ 64).
      load-Returns m (a + o) n (IsMapped-part m a 64 o n mapped fits) in
    let (major, e1) = part 8 2 (omega arith) in
    let (minor, e2) = part 10 2 (omega arith) in
    let (size, e3) = part 12 2 (omega arith) in
    let (entry_size, e4) = part 14 2 (omega arith) in
    let (flags, e5) = part 16 4 (omega arith) in
    let (count, e6) = part 20 4 (omega arith) in
    let (total, e7) = part 24 8 (omega arith) in
    let (at, e8) = part 32 8 (omega arith) in
    let (r0, e9) = part 48 8 (omega arith) in
    let (r1, e10) = part 56 8 (omega arith) in
    (
      record {
        major = major;
        minor = minor;
        size = size;
        entry_size = entry_size;
        flags = flags;
        entry_count = count;
        total_size = total;
        directory_offset = at;
        reserved0 = r0;
        reserved1 = r1;
      },
      rw (e1, e2, e3, e4, e5, e6, e7, e8, e9, e10) refl,
    )

pub crc_with_zero_checksum-Returns :
    (m : Memory) (a n : ℕ) → IsMapped m a n → 64 ≤ n → Returns (crc_with_zero_checksum m a n)
unfolding crc_with_zero_checksum
crc_with_zero_checksum-Returns m a n mapped long =
    let (head, eh) = load_bytes-Returns m a 40 (IsMapped-prefix m a n 40 mapped (omega arith)) in
    let (tail, et) =
      load_bytes-Returns m (a + 48) (n - 48)
        (IsMapped-part m a n 48 (n - 48) mapped (omega arith)) in
    (
      crc64_final (crc64_update (crc64_update (crc64_update crc64_init head) zeros) tail),
      rw (eh, et) refl,
    )

-- The header as the format wants it, for a capsule of `extent` bytes.
pub record IsHeader (extent : ℕ) (h : HeaderFields) : Type 0 where
  pub major : h.major ≡ 2
  pub minor : h.minor ≡ 0
  pub size : h.size ≡ 64
  pub entry_size : h.entry_size ≡ 48
  pub flags : h.flags ≡ 0
  pub reserved0 : h.reserved0 ≡ 0
  pub reserved1 : h.reserved1 ≡ 0
  pub total : h.total_size ≡ extent
  pub few : h.entry_count ≤ 1024
  pub aligned : bit_and h.directory_offset 7 ≡ 0
  pub empty : h.entry_count ≡ 0 → (h.directory_offset ≡ 64) × (extent ≡ 64)
  pub bounded : IsBounded h

pub check_header-IsHeader :
    (h : HeaderFields) (extent : ℕ) → check_header h extent ≡ ok → IsHeader extent h
unfolding check_header
check_header-IsHeader h extent c = record {
  major = ground arith;
  minor = ground arith;
  size = ground arith;
  entry_size = ground arith;
  flags = ground arith;
  reserved0 = ground arith;
  reserved1 = ground arith;
  total = ground arith;
  few = ground arith;
  aligned = ground arith;
  empty = λ e. (ground arith, ground arith);
  bounded = record { total = ground arith; directory_at = ground arith; directory = ground arith };
}
