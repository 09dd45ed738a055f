-- ===== src/Kernel/Seal/Laws.antt =====
-- What the comparison and the checksum of kernel/bbp_kernel.c decide.
use mathlib.Core.List.{append_assoc}
use bear_boot.Prelude.{
  ℕ, ◌+◌, ◌-◌, ◌%◌, ◌^◌, ◌≤◌, ◌<◌, ◌≡◌, ◌≢◌, ◌↔◌, inl, inr, refl, ap, ◌∙◌, true, false, ◌!=◌,
  Option, some, none, List, [], ◌∷◌, ◌++◌, arith, length, take, drop, ltb, ◌>>=◌, Returns,
  eq_of_some, Bool-cases, Option-cases,
}
use bear_boot.Bytes.{IsBytes}
use bear_boot.Memory.{Memory, load_bytes, IsByteMemory, IsMapped}
use bear_boot.Memory.Parts.{load_bytes-take, load_bytes-drop}
use bear_boot.Crc.{crc64, crc64_init, crc64_update, crc64_final}
use bear_boot.Crc.Detect.{crc64_update-append}
use bear_boot.Kernel.Seal.{memcmp, crc_skip, zeros}

pub memcmp-Returns :
    (m : Memory) (a : ℕ) (ys : List ℕ) → IsMapped m a (length ys) → Returns (memcmp m a ys)
unfolding memcmp
memcmp-Returns m a [] h = (0, refl)
memcmp-Returns m a (y ∷ ys) h =
    let (x, e) = h a (omega arith) (omega arith) in
    let (r, er) = memcmp-Returns m (a + 1) ys (λ z p q. h z (omega arith) (omega arith)) in
    elim (Bool-cases (x != y)) [ inl d ↦ rw (e, d) (_, refl) | inr s ↦ rw (e, s, er) (r, refl) ]

differs : (x y : ℕ) → (x != y) ≡ true → x ≢ y
differs x y d = ground arith

bit_pattern : (x y : ℕ) → x < 256 → y < 256 → x ≢ y → (x + 2 ^ 32 - y) % 2 ^ 32 ≡ 0 → ⊥
bit_pattern x y p q ne e = absurd (ne (omega arith))

head_eq :
    (x y : ℕ) (o : Option (List ℕ)) (ys : List ℕ)
    → (o >>= λ bs. some (x ∷ bs)) ≡ some (y ∷ ys)
    → x ≡ y
head_eq x y none ys h = cc
head_eq x y (some bs) ys h = cc

tail_eq :
    (x : ℕ) (o : Option (List ℕ)) (ys : List ℕ)
    → (o >>= λ bs. some (x ∷ bs)) ≡ some (x ∷ ys)
    → o ≡ some ys
tail_eq x none ys h = cc
tail_eq x (some bs) ys h = cc

-- In a memory of bytes, and for a constant of bytes, bbp_memcmp gives 0 exactly when the bytes in
-- memory are those of the constant.
pub memcmp_iff :
    (m : Memory) (a : ℕ) (ys : List ℕ)
    → IsByteMemory m
    → IsBytes ys
    → (memcmp m a ys ≡ some 0) ↔ (load_bytes m a (length ys) ≡ some ys)
unfolding memcmp load_bytes
memcmp_iff m a [] hm hy = (λ _. refl, λ _. refl)
memcmp_iff m a (y ∷ ys) hm hy = elim (Option-cases (m a)) [
  | inl fault ↦ rw fault (λ h. cc, λ h. cc)
  | inr (x, e) ↦
      let small : x < 256 = hm a x e in
      let (to, from) = memcmp_iff m (a + 1) ys hm hy.1 in
      elim (Bool-cases (x != y)) [
        | inl d ↦
            rw (e, d)
              (
                λ h. absurd (bit_pattern x y small hy.0 (differs x y d) (eq_of_some h)),
                λ h. absurd (differs x y d (head_eq x y (load_bytes m (a + 1) (length ys)) ys h)),
              )
        | inr s ↦
            let same : x ≡ y = ground arith in
            rw (e, s, same)
              (λ h. rw (to h) refl, λ h. from (tail_eq y (load_bytes m (a + 1) (length ys)) ys h))
      ]
]

-- The bytes of a structure with the eight at `off` set to zero.
abbrev pub zero_field : ℕ → List ℕ → List ℕ
zero_field off bs = take off bs ++ (zeros ++ drop (off + 8) bs)

-- For a structure whose bytes can be read and whose length covers the checksum field,
-- bbp_crc_skip is the checksum of its bytes with that field zeroed.
pub crc_skip-zero_field :
    (m : Memory) (base len off : ℕ) (bs : List ℕ)
    → off + 8 ≤ len
    → load_bytes m base len ≡ some bs
    → crc_skip m base len off ≡ some (crc64 (zero_field off bs))
unfolding crc_skip crc64
crc_skip-zero_field m base len off bs room e =
    let long : ltb len (off + 8) ≡ false = ground arith in
    let head = load_bytes-take m base len off bs (omega arith) e in
    let start : base + off + 8 ≡ base + (off + 8) = omega arith in
    let count : len - off - 8 ≡ len - (off + 8) = omega arith in
    let tail = load_bytes-drop m base len (off + 8) bs room e in
    rw (long, head, start, count, tail)
      (ap (λ c. some (crc64_final c))
        (ap (λ c. crc64_update c (drop (off + 8) bs))
            (crc64_update-append crc64_init (take off bs) zeros)
          ∙ crc64_update-append crc64_init (take off bs ++ zeros) (drop (off + 8) bs)
          ∙ ap (crc64_update crc64_init) (append_assoc (take off bs) zeros (drop (off + 8) bs))))
