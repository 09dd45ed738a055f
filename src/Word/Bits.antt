-- ===== src/Word/Bits.antt =====
-- Laws of the bit operations at variables, from their recursion on binary digits.
use Prim.Native.Nat.{min, digits, bitwise, bit_and-bitwise, bit_xor-bitwise}
use Prim.Native.Nat.{differ}
use mathlib.Core.WellFounded
use native.Mathlib.Nat.{add-zero, le_refl, pow-suc, one-le-pow}
use bear_boot.Prelude.{
  ◌⊎◌, inl, inr, ℕ, zero, suc, ◌+◌, ◌*◌, ◌/◌, ◌%◌, ◌^◌, ◌≤◌, ◌<◌, bit_and, bit_xor, ◌≡◌, refl, ap,
  sym, ◌∙◌, ◌-◌, arith,
}
use bear_boot.Prelude.Order.{lt_wf}

-- The library's recursion on digits takes a count of rounds. Rounds beyond the first number's size
-- change nothing, so its lowest digit splits off.
module _ (last : ℕ → ℕ) (pair : ℕ → ℕ → ℕ) where
  spare_round :
      (rounds x y : ℕ)
      → x ≤ rounds
      → digits last pair (suc rounds) x y ≡ digits last pair rounds x y
  spare_round zero (suc x) y small = absurd (omega arith)
  spare_round zero zero y small = refl
  spare_round (suc rounds) zero y small = refl
  spare_round (suc rounds) (suc x) y small =
      ap (λ high. high * 2 + pair (suc x % 2) (y % 2))
        (spare_round rounds (suc x / 2) (y / 2) (omega arith))

  spare_rounds :
      (spare rounds x y : ℕ)
      → x ≤ rounds
      → digits last pair (rounds + spare) x y ≡ digits last pair rounds x y
  spare_rounds zero rounds x y small = ap (λ n. digits last pair n x y) (add-zero rounds)
  spare_rounds (suc spare) rounds x y small =
      let next : rounds + suc spare ≡ suc (rounds + spare) = omega arith in
      ap (λ n. digits last pair n x y) next
      ∙ spare_round (rounds + spare) x y (omega arith)
      ∙ spare_rounds spare rounds x y small

  lowest_digit :
      (x y : ℕ)
      → bitwise last pair (suc x) y
        ≡ bitwise last pair (suc x / 2) (y / 2) * 2 + pair (suc x % 2) (y % 2)
  lowest_digit x y =
      let enough : suc x / 2 + (x - suc x / 2) ≡ x = omega arith in
      ap (λ high. high * 2 + pair (suc x % 2) (y % 2))
        (ap (λ rounds. digits last pair rounds (suc x / 2) (y / 2)) (sym enough)
          ∙ spare_rounds (x - suc x / 2) (suc x / 2) (suc x / 2) (y / 2) (le_refl (suc x / 2)))

-- One more position to the left.
pub times_double : (n k : ℕ) → n * 2 ^ suc k ≡ 2 * (n * 2 ^ k)
times_double n k = omega (arith, ap (λ power. n * power) (pow-suc 2 k))

pub bit_and_step : (x y : ℕ) → bit_and x y ≡ bit_and (x / 2) (y / 2) * 2 + min (x % 2) (y % 2)
bit_and_step zero y = omega (arith, bit_and-bitwise 0 y, bit_and-bitwise 0 (y / 2))
bit_and_step (suc x) y =
    bit_and-bitwise (suc x) y
    ∙ lowest_digit (λ _. 0) min x y
    ∙ ap (λ high. high * 2 + min (suc x % 2) (y % 2)) (sym (bit_and-bitwise (suc x / 2) (y / 2)))

differ_digits : (a b : ℕ) → differ (a % 2) (b % 2) ≡ (a % 2 + b % 2) % 2
differ_digits a b = go (a % 2) (b % 2) (omega arith) (omega arith)
  where
    go : (x y : ℕ) → x < 2 → y < 2 → differ x y ≡ (x + y) % 2
    go zero zero p q = refl
    go zero (suc zero) p q = refl
    go (suc zero) zero p q = refl
    go (suc zero) (suc zero) p q = refl
    go (suc (suc x)) y p q = absurd (omega arith)
    go zero (suc (suc y)) p q = absurd (omega arith)
    go (suc zero) (suc (suc y)) p q = absurd (omega arith)

pub bit_xor_step : (a b : ℕ) → bit_xor a b ≡ bit_xor (a / 2) (b / 2) * 2 + (a % 2 + b % 2) % 2
bit_xor_step zero b = simp bit_xor-bitwise (omega arith)
bit_xor_step (suc a) b =
    rw (← differ_digits (suc a) b) (simp bit_xor-bitwise (lowest_digit (λ y. y) differ a b))

pub zero-bit_xor : (b : ℕ) → bit_xor 0 b ≡ b
zero-bit_xor b = bit_xor-bitwise 0 b

pub bit_xor-div : (a b : ℕ) → bit_xor a b / 2 ≡ bit_xor (a / 2) (b / 2)
bit_xor-div a b = omega (arith, bit_xor_step a b)

pub bit_xor-mod : (a b : ℕ) → bit_xor a b % 2 ≡ (a % 2 + b % 2) % 2
bit_xor-mod a b = omega (arith, bit_xor_step a b)

pub bit_xor-zero : (a : ℕ) → bit_xor a 0 ≡ a
bit_xor-zero a = WellFounded.induction lt_wf {C = λ n. bit_xor n 0 ≡ n} a step
  where
    step : (n : ℕ) → ((m : ℕ) → m < n → bit_xor m 0 ≡ m) → bit_xor n 0 ≡ n
    step zero ih = refl
    step (suc n) ih = omega (arith, bit_xor_step (suc n) 0, ih (suc n / 2) (omega arith))

pub bit_xor_self : (a : ℕ) → bit_xor a a ≡ 0
bit_xor_self a = WellFounded.induction lt_wf {C = λ n. bit_xor n n ≡ 0} a step
  where
    step : (n : ℕ) → ((m : ℕ) → m < n → bit_xor m m ≡ 0) → bit_xor n n ≡ 0
    step zero ih = refl
    step (suc n) ih = omega (arith, bit_xor_step (suc n) (suc n), ih (suc n / 2) (omega arith))

pub bit_xor_comm : (a b : ℕ) → bit_xor a b ≡ bit_xor b a
bit_xor_comm a = WellFounded.induction lt_wf {C = λ n. (b : ℕ) → bit_xor n b ≡ bit_xor b n} a step
  where
    step :
        (n : ℕ)
        → ((m : ℕ) → m < n → (b : ℕ) → bit_xor m b ≡ bit_xor b m)
        → (b : ℕ) → bit_xor n b ≡ bit_xor b n
    step zero ih b = omega (arith, zero-bit_xor b, bit_xor-zero b)
    step (suc n) ih b = omega (
      arith,
      bit_xor_step (suc n) b,
      bit_xor_step b (suc n),
      ih (suc n / 2) (omega arith) (b / 2),
    )

pub bit_xor_assoc : (a b c : ℕ) → bit_xor (bit_xor a b) c ≡ bit_xor a (bit_xor b c)
bit_xor_assoc a =
    WellFounded.induction lt_wf
      {C = λ n. (b c : ℕ) → bit_xor (bit_xor n b) c ≡ bit_xor n (bit_xor b c)} a step
  where
    step :
        (n : ℕ)
        → ((m : ℕ) → m < n → (b c : ℕ) → bit_xor (bit_xor m b) c ≡ bit_xor m (bit_xor b c))
        → (b c : ℕ) → bit_xor (bit_xor n b) c ≡ bit_xor n (bit_xor b c)
    step zero ih b c = rw (zero-bit_xor b, zero-bit_xor (bit_xor b c))
    step (suc n) ih b c = ground (
      arith,
      bit_xor_step (bit_xor (suc n) b) c,
      bit_xor_step (suc n) (bit_xor b c),
      bit_xor-div (suc n) b,
      bit_xor-mod (suc n) b,
      bit_xor-div b c,
      bit_xor-mod b c,
      ih (suc n / 2) (omega arith) (b / 2) (c / 2),
    )

-- `(a ^ b) ^ b` is `a`, so `x ^ b` is injective in `x`.
pub bit_xor_cancel : (a b : ℕ) → bit_xor (bit_xor a b) b ≡ a
bit_xor_cancel a b = rw (bit_xor_assoc a b b, bit_xor_self b) (bit_xor-zero a)

pub bit_xor_injective : (a b c : ℕ) → bit_xor a c ≡ bit_xor b c → a ≡ b
bit_xor_injective a b c h =
    omega (arith, bit_xor_cancel a c, bit_xor_cancel b c, ap (λ (t : ℕ). bit_xor t c) h)

-- `(a ^ b) ^ (c ^ d)` regrouped as `(a ^ c) ^ (b ^ d)`.
pub bit_xor_swap :
    (a b c d : ℕ) → bit_xor (bit_xor a b) (bit_xor c d) ≡ bit_xor (bit_xor a c) (bit_xor b d)
bit_xor_swap a b c d = cc (
  bit_xor_assoc a b (bit_xor c d),
  bit_xor_assoc a c (bit_xor b d),
  bit_xor_assoc b c d,
  bit_xor_assoc c b d,
  bit_xor_comm b c,
)

pub bit_xor-lt : (k a b : ℕ) → a < 2 ^ k → b < 2 ^ k → bit_xor a b < 2 ^ k
bit_xor-lt zero zero zero p q = omega arith
bit_xor-lt zero zero (suc b) p q = absurd (omega arith)
bit_xor-lt zero (suc a) b p q = absurd (omega arith)
bit_xor-lt (suc k) a b p q = ground (
  arith,
  bit_xor_step a b,
  pow-suc 2 k,
  bit_xor-lt k (a / 2) (b / 2) (omega (arith, pow-suc 2 k)) (omega (arith, pow-suc 2 k)),
)

-- The top bit of `p` survives when `a` does not have it.
pub le-bit_xor : (k a p : ℕ) → a < 2 ^ k → 2 ^ k ≤ p → p < 2 * 2 ^ k → 2 ^ k ≤ bit_xor a p
le-bit_xor zero a p h lo hi = ground (arith, zero-bit_xor p)
le-bit_xor (suc k) a p h lo hi = ground (
  arith,
  bit_xor_step a p,
  pow-suc 2 k,
  le-bit_xor k (a / 2) (p / 2) (omega (arith, pow-suc 2 k)) (omega (arith, pow-suc 2 k))
      (omega (arith, pow-suc 2 k)),
)

-- Exclusive or of fields that do not meet is a sum.
pub bit_xor_fields : (k q r : ℕ) → r < 2 ^ k → bit_xor r (q * 2 ^ k) ≡ q * 2 ^ k + r
bit_xor_fields zero q r fits = ground (arith, zero-bit_xor q)
bit_xor_fields (suc k) q r fits = ground (
  arith,
  bit_xor_step r (q * 2 ^ suc k),
  times_double q k,
  bit_xor_fields k q (r / 2) (omega (arith, pow-suc 2 k)),
)

bit_and-zero_below : (bound a : ℕ) → a ≤ bound → bit_and a 0 ≡ 0
bit_and-zero_below bound zero small = bit_and-bitwise 0 0
bit_and-zero_below zero (suc a) small = absurd (omega arith)
bit_and-zero_below (suc bound) (suc a) small =
    omega (arith, bit_and_step (suc a) 0, bit_and-zero_below bound (suc a / 2) (omega arith))

bit_and-zero : (a : ℕ) → bit_and a 0 ≡ 0
bit_and-zero a = bit_and-zero_below a a (le_refl a)

bit_and_low : (k q r m : ℕ) → r < 2 ^ k → m + 1 ≡ 2 ^ k → bit_and (q * 2 ^ k + r) m ≡ r
bit_and_low zero q r m fits e =
    let e' : m ≡ 0 = omega arith in rw (e', bit_and-zero (q * 2 ^ 0 + r)) (omega arith)
bit_and_low (suc k) q r m fits e = ground (
  arith,
  bit_and_step (q * 2 ^ suc k + r) m,
  times_double q k,
  bit_and_low k q (r / 2) (m / 2) (omega (arith, pow-suc 2 k)) (omega (arith, pow-suc 2 k)),
)

-- A mask of `k` low bits is the remainder by `2 ^ k`.
pub bit_and_mask : (k a m : ℕ) → m + 1 ≡ 2 ^ k → bit_and a m ≡ a % 2 ^ k
bit_and_mask k a m e = ground (arith, bit_and_low k (a / 2 ^ k) (a % 2 ^ k) m, one-le-pow k 2)

-- `k` low zeros of a mask, in front of which it acts on the quotient by `2 ^ k`.
pub bit_and_high :
    (k q r m : ℕ) → r < 2 ^ k → bit_and (q * 2 ^ k + r) (m * 2 ^ k) ≡ bit_and q m * 2 ^ k
bit_and_high zero q r m fits =
    let e : q * 2 ^ 0 + r ≡ q = omega arith in
    let f : m * 2 ^ 0 ≡ m = omega arith in rw (e, f) (omega arith)
bit_and_high (suc k) q r m fits = ground (
  arith,
  bit_and_step (q * 2 ^ suc k + r) (m * 2 ^ suc k),
  times_double q k,
  times_double m k,
  times_double (bit_and q m) k,
  bit_and_high k q (r / 2) m (omega (arith, pow-suc 2 k)),
)

bit_and_self : (a : ℕ) → bit_and a a ≡ a
bit_and_self a = WellFounded.induction lt_wf {C = λ n. bit_and n n ≡ n} a step
  where
    step : (n : ℕ) → ((m : ℕ) → m < n → bit_and m m ≡ m) → bit_and n n ≡ n
    step zero ih = bit_and-bitwise 0 0
    step (suc n) ih = ground (arith, bit_and_step (suc n) (suc n), ih (suc n / 2) (omega arith))

-- A number that shares no digit with the number below it is a power of two.
pub bit_and_pred-pow : (a : ℕ) → 0 < a → bit_and a (a - 1) ≡ 0 → (k : ℕ) × (a ≡ 2 ^ k)
bit_and_pred-pow a =
    WellFounded.induction lt_wf {C = λ n. 0 < n → bit_and n (n - 1) ≡ 0 → (k : ℕ) × (n ≡ 2 ^ k)} a
      step
  where
    step :
        (n : ℕ)
        → ((m : ℕ) → m < n → 0 < m → bit_and m (m - 1) ≡ 0 → (k : ℕ) × (m ≡ 2 ^ k))
        → 0 < n
        → bit_and n (n - 1) ≡ 0
        → (k : ℕ) × (n ≡ 2 ^ k)
    step zero ih pos e = absurd (omega arith)
    step (suc zero) ih pos e = (0, refl)
    step (suc (suc n)) ih pos e = elim (mod_two n) [
      | inl odd ↦
          let half : (n + 1) / 2 ≡ (n + 2) / 2 = omega (arith, odd) in
          let s = bit_and_step (suc (suc n)) (suc n) in
          absurd (ground (arith, s, bit_and_self (suc n / 2), e, odd))
      | inr even ↦
          let s = bit_and_step (suc (suc n)) (suc n) in
          let below : suc n / 2 ≡ suc (suc n) / 2 - 1 = omega (arith, even) in
          let (k, ek) =
            ih (suc (suc n) / 2) (omega arith) (omega arith) (ground (arith, s, below, e)) in
          (suc k, omega (arith, pow-suc 2 k, ek, even))
    ]
      where
        mod_two : (x : ℕ) → (x % 2 ≡ 1) ⊎ (x % 2 ≡ 0)
        mod_two x = ground arith
