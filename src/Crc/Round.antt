-- ===== src/Crc/Round.antt =====
-- One bit step and one byte step of the CRC register: linear, and a bijection on 64-bit words.
use mathlib.Core.Path.{◌≡⟨◌⟩◌, ◌∎}
use bear_boot.Prelude.{
  ℕ, zero, suc, ◌+◌, ◌-◌, ◌*◌, ◌/◌, ◌%◌, ◌^◌, ◌<◌, ◌≤◌, ◌≡◌, refl, sym, ap, ◌∙◌, bit_and, bit_xor,
  arith, List, [], ◌∷◌, length,
}
use bear_boot.Bytes.{IsBytes, le, le_injective, le-lt}
use bear_boot.Word.Bits.{
  bit_and_mask, bit_xor-zero, bit_xor_comm, bit_xor_assoc, bit_xor_injective, bit_xor_swap,
  bit_xor-lt, le-bit_xor, bit_xor_fields, times_double, bit_xor-div, bit_xor-mod,
}
use bear_boot.Crc.{crc64_poly_reflected, crc64_bit, crc64_bits, crc64_update}

-- What the low bit adds: the polynomial, or nothing.
abbrev feed : ℕ → ℕ
feed zero = 0
feed (suc n) = crc64_poly_reflected

crc64_bit_lem : (c : ℕ) → crc64_bit c ≡ bit_xor (c / 2) (feed (c % 2))
unfolding crc64_bit
crc64_bit_lem c = rw (bit_and_mask 1 c 1 refl) (go (c % 2) (omega arith))
  where
    go :
        (b : ℕ)
        → b < 2
        → bit_xor (c / 2) (bit_and crc64_poly_reflected ((2 ^ 64 - b) % 2 ^ 64))
          ≡ bit_xor (c / 2) (feed b)
    go zero h = refl
    go (suc zero) h = refl
    go (suc (suc b)) h = absurd (omega arith)

feed-xor : (a b : ℕ) → a < 2 → b < 2 → feed ((a + b) % 2) ≡ bit_xor (feed a) (feed b)
feed-xor zero zero p q = refl
feed-xor zero (suc zero) p q = refl
feed-xor (suc zero) zero p q = refl
feed-xor (suc zero) (suc zero) p q = refl
feed-xor (suc (suc a)) b p q = absurd (omega arith)
feed-xor zero (suc (suc b)) p q = absurd (omega arith)
feed-xor (suc zero) (suc (suc b)) p q = absurd (omega arith)

crc64_bit-xor : (a b : ℕ) → crc64_bit (bit_xor a b) ≡ bit_xor (crc64_bit a) (crc64_bit b)
crc64_bit-xor a b =
    rw
      (
        crc64_bit_lem (bit_xor a b),
        crc64_bit_lem a,
        crc64_bit_lem b,
        bit_xor-div a b,
        bit_xor-mod a b,
        feed-xor (a % 2) (b % 2) (omega arith) (omega arith),
      )
      (bit_xor_swap (a / 2) (b / 2) (feed (a % 2)) (feed (b % 2)))

pub crc64_bits-xor :
    (n a b : ℕ) → crc64_bits n (bit_xor a b) ≡ bit_xor (crc64_bits n a) (crc64_bits n b)
unfolding crc64_bits
crc64_bits-xor zero a b = refl
crc64_bits-xor (suc n) a b = rw (crc64_bit-xor a b) (crc64_bits-xor n (crc64_bit a) (crc64_bit b))

crc64_bits-add : (m n c : ℕ) → crc64_bits (m + n) c ≡ crc64_bits n (crc64_bits m c)
unfolding crc64_bits
crc64_bits-add zero n c = let e : zero + n ≡ n = omega arith in rw e
crc64_bits-add (suc m) n c =
    let e : suc m + n ≡ suc (m + n) = omega arith in rw e (crc64_bits-add m n (crc64_bit c))

-- Bits above the register's low end only move down.
crc64_bit_double : (h : ℕ) → crc64_bit (2 * h) ≡ h
crc64_bit_double h =
    let low : 2 * h % 2 ≡ 0 = omega arith in
    let high : 2 * h / 2 ≡ h = omega arith in rw (crc64_bit_lem (2 * h), low, high) (bit_xor-zero h)

crc64_bits_shift : (n h : ℕ) → crc64_bits n (h * 2 ^ n) ≡ h
unfolding crc64_bits
crc64_bits_shift zero h = omega arith
crc64_bits_shift (suc n) h =
    rw (times_double h n, crc64_bit_double (h * 2 ^ n)) (crc64_bits_shift n h)

feed-lt : (b : ℕ) → b < 2 → feed b < 2 ^ 64
feed-lt zero h = omega arith
feed-lt (suc zero) h = omega arith
feed-lt (suc (suc b)) h = absurd (omega arith)

pub crc64_bit-lt : (c : ℕ) → c < 2 ^ 64 → crc64_bit c < 2 ^ 64
crc64_bit-lt c h =
    rw (crc64_bit_lem c)
      (bit_xor-lt 64 (c / 2) (feed (c % 2)) (omega arith) (feed-lt (c % 2) (omega arith)))

-- The polynomial's top bit says whether it was added.
feed_top : (x b : ℕ) → x < 2 ^ 63 → b < 2 → bit_xor x (feed b) / 2 ^ 63 ≡ b
feed_top x zero h k = rw (bit_xor-zero x) (omega arith)
feed_top x (suc zero) h k = omega (
  arith,
  le-bit_xor 63 x crc64_poly_reflected h (omega arith) (omega arith),
  bit_xor-lt 64 x crc64_poly_reflected (omega arith) (omega arith),
)
feed_top x (suc (suc b)) h k = absurd (omega arith)

crc64_bit_injective : (c d : ℕ) → c < 2 ^ 64 → d < 2 ^ 64 → crc64_bit c ≡ crc64_bit d → c ≡ d
crc64_bit_injective c d hc hd e = omega (arith, low, high)
  where
    same : bit_xor (c / 2) (feed (c % 2)) ≡ bit_xor (d / 2) (feed (d % 2))
    same = cc (crc64_bit_lem c, crc64_bit_lem d)

    low : c % 2 ≡ d % 2
    low = cc (
      feed_top (c / 2) (c % 2) (omega arith) (omega arith),
      feed_top (d / 2) (d % 2) (omega arith) (omega arith),
      ap (λ (t : ℕ). t / 2 ^ 63) same,
    )

    high : c / 2 ≡ d / 2
    high = bit_xor_injective (c / 2) (d / 2) (feed (c % 2)) (cc (same, low))

crc64_bits-lt : (n c : ℕ) → c < 2 ^ 64 → crc64_bits n c < 2 ^ 64
unfolding crc64_bits
crc64_bits-lt zero c h = h
crc64_bits-lt (suc n) c h = crc64_bits-lt n (crc64_bit c) (crc64_bit-lt c h)

crc64_bits_injective :
    (n c d : ℕ) → c < 2 ^ 64 → d < 2 ^ 64 → crc64_bits n c ≡ crc64_bits n d → c ≡ d
unfolding crc64_bits
crc64_bits_injective zero c d hc hd e = e
crc64_bits_injective (suc n) c d hc hd e =
    crc64_bit_injective c d hc hd
      (crc64_bits_injective n (crc64_bit c) (crc64_bit d) (crc64_bit-lt c hc) (crc64_bit-lt d hd) e)

no_bits : (c : ℕ) → crc64_bits 0 c ≡ c
unfolding crc64_bits
no_bits c = refl

-- A run of bytes enters the register as one little-endian number.
pub crc64_update-bits :
    (c : ℕ) (bs : List ℕ)
    → IsBytes bs
    → crc64_update c bs ≡ crc64_bits (8 * length bs) (bit_xor c (le bs))
unfolding crc64_update le
crc64_update-bits c [] h = sym (no_bits (bit_xor c 0) ∙ bit_xor-zero c)
crc64_update-bits c (b ∷ bs) h =
    crc64_update (byte_step c b) bs
    ≡⟨ crc64_update-bits (byte_step c b) bs h.1 ⟩
      crc64_bits (8 * length bs) (bit_xor (byte_step c b) (le bs))
    ≡⟨ ap (crc64_bits (8 * length bs)) enter ⟩
      crc64_bits (8 * length bs) (crc64_bits 8 (bit_xor c (le bs * 2 ^ 8 + b)))
    ≡⟨ sym (crc64_bits-add 8 (8 * length bs) (bit_xor c (le bs * 2 ^ 8 + b))) ⟩
      crc64_bits (8 + 8 * length bs) (bit_xor c (le bs * 2 ^ 8 + b))
    ≡⟨ ap (λ k. crc64_bits k (bit_xor c (le bs * 2 ^ 8 + b))) count ⟩
      crc64_bits (8 * suc (length bs)) (bit_xor c (le bs * 2 ^ 8 + b)) ∎
  where
    count : 8 + 8 * length bs ≡ 8 * suc (length bs)
    count = omega arith

    byte_step : ℕ → ℕ → ℕ
    byte_step c b = crc64_bits 8 (bit_xor c b)

    enter : bit_xor (byte_step c b) (le bs) ≡ crc64_bits 8 (bit_xor c (le bs * 2 ^ 8 + b))
    enter = cc (
      crc64_bits_shift 8 (le bs),
      crc64_bits-xor 8 (bit_xor c b) (le bs * 2 ^ 8),
      bit_xor_assoc c b (le bs * 2 ^ 8),
      bit_xor_fields 8 (le bs) b h.0,
    )

-- The register after some bytes determines the register before them.
pub crc64_update_injective :
    (ys : List ℕ) (c d : ℕ)
    → IsBytes ys
    → c < 2 ^ 64
    → d < 2 ^ 64
    → crc64_update c ys ≡ crc64_update d ys
    → c ≡ d
unfolding crc64_update
crc64_update_injective [] c d hy hc hd e = e
crc64_update_injective (y ∷ ys) c d hy hc hd e = bit_xor_injective c d y (
    crc64_bits_injective 8 (bit_xor c y) (bit_xor d y) (fits c hc) (fits d hd) (
      crc64_update_injective ys _ _ hy.1 (crc64_bits-lt 8 _ (fits c hc))
        (crc64_bits-lt 8 _ (fits d hd)) e))
  where
    fits : (x : ℕ) → x < 2 ^ 64 → bit_xor x y < 2 ^ 64
    fits x hx = bit_xor-lt 64 x y hx (omega arith)

pub crc64_update-lt : (ys : List ℕ) (c : ℕ) → IsBytes ys → c < 2 ^ 64 → crc64_update c ys < 2 ^ 64
unfolding crc64_update
crc64_update-lt [] c hy hc = hc
crc64_update-lt (y ∷ ys) c hy hc =
    crc64_update-lt ys _ hy.1 (crc64_bits-lt 8 _ (bit_xor-lt 64 c y hc (omega arith)))

-- Up to eight bytes, fed into one register value, are told apart.
pub crc64_update_burst :
    (c : ℕ) (xs ys : List ℕ)
    → IsBytes xs
    → IsBytes ys
    → length xs ≡ length ys
    → length xs ≤ 8
    → c < 2 ^ 64
    → crc64_update c xs ≡ crc64_update c ys
    → xs ≡ ys
crc64_update_burst c xs ys hx hy len few hc e = le_injective xs ys hx hy len (
    cc (
      bit_xor_injective (le xs) (le ys) c
        (cc (bit_xor_comm c (le xs), bit_xor_comm c (le ys), registers))))
  where
    small : (zs : List ℕ) → IsBytes zs → length zs ≤ 8 → bit_xor c (le zs) < 2 ^ 64
    small zs h k = bit_xor-lt 64 c (le zs) hc (le-lt 8 zs h k)

    registers : bit_xor c (le xs) ≡ bit_xor c (le ys)
    registers =
        crc64_bits_injective (8 * length xs) _ _ (small xs hx few) (small ys hy (omega arith))
          (cc (crc64_update-bits c xs hx, crc64_update-bits c ys hy, len))
