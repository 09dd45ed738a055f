-- ===== src/Bytes.antt =====
-- Byte strings: their range, and the little-endian numbers that they spell.
use native.Mathlib.Nat.{pow-suc, one-le-pow}
use bear_boot.Prelude.{
  ℕ, zero, suc, ◌+◌, ◌*◌, ◌/◌, ◌%◌, ◌^◌, ◌<◌, ◌≤◌, ◌≡◌, refl, List, [], ◌∷◌, arith, length, ap,
}

abbrev pub IsBytes : List ℕ → Type 0
IsBytes [] = Unit {0}
IsBytes (b ∷ bs) = (b < 256) × IsBytes bs

-- The number whose little-endian bytes these are: a load of a packed field.
unfoldable pub le : List ℕ → ℕ
le [] = 0
le (b ∷ bs) = le bs * 2 ^ 8 + b

-- The `n` little-endian bytes of a number: a store to a packed field.
unfoldable pub le_bytes : ℕ → ℕ → List ℕ
le_bytes zero v = []
le_bytes (suc n) v = v % 256 ∷ le_bytes n (v / 256)

pub le_injective :
    (xs ys : List ℕ) → IsBytes xs → IsBytes ys → length xs ≡ length ys → le xs ≡ le ys → xs ≡ ys
unfolding le
le_injective [] [] p q e h = refl
le_injective [] (y ∷ ys) p q e h = absurd (omega arith)
le_injective (x ∷ xs) [] p q e h = absurd (omega arith)
le_injective (x ∷ xs) (y ∷ ys) p q e h =
    ground (arith, le_injective xs ys p.1 q.1 (omega arith) (omega arith))

pub le-lt : (n : ℕ) (bs : List ℕ) → IsBytes bs → length bs ≤ n → le bs < 256 ^ n
unfolding le
le-lt zero [] h k = omega arith
le-lt zero (b ∷ bs) h k = absurd (omega arith)
le-lt (suc n) [] h k = omega (arith, one-le-pow (suc n) 256)
le-lt (suc n) (b ∷ bs) h k = omega (arith, pow-suc 256 n, le-lt n bs h.1 (omega arith))

pub length-le_bytes : (n v : ℕ) → length (le_bytes n v) ≡ n
unfolding le_bytes
length-le_bytes zero v = refl
length-le_bytes (suc n) v = ap suc (length-le_bytes n (v / 256))

pub le_bytes-IsBytes : (n v : ℕ) → IsBytes (le_bytes n v)
unfolding le_bytes
le_bytes-IsBytes zero v = tt
le_bytes-IsBytes (suc n) v = (omega arith, le_bytes-IsBytes n (v / 256))

-- A number that fits comes back from its bytes.
pub le-le_bytes2 : (v : ℕ) → v < 2 ^ 16 → le (le_bytes 2 v) ≡ v
unfolding le le_bytes
le-le_bytes2 v h = omega arith

pub le-le_bytes4 : (v : ℕ) → v < 2 ^ 32 → le (le_bytes 4 v) ≡ v
unfolding le le_bytes
le-le_bytes4 v h = omega arith

pub le-le_bytes8 : (v : ℕ) → v < 2 ^ 64 → le (le_bytes 8 v) ≡ v
unfolding le le_bytes
le-le_bytes8 v h = omega arith
