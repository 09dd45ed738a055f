-- ===== src/Memory.antt =====
-- The address space of the program: a byte at each mapped address. A load or a store that touches
-- an address with no byte faults, which is `none`.
pub mod Loads
pub mod Parts
pub mod Stores
pub mod Within
pub mod Fields
use bear_boot.Prelude.{
  ℕ, zero, suc, ◌+◌, ◌-◌, ◌≤◌, ◌<◌, ◌≡◌, Option, none, some, List, [], ◌∷◌, ltb, if◌then◌else◌,
  length, get_elem?, ◌>>=◌,
}
use bear_boot.Bytes.{le, le_bytes}

abbrev pub Memory : Type 0
Memory = ℕ → Option ℕ

-- The bytes at `[a, a + n)`.
unfoldable pub load_bytes : Memory → ℕ → ℕ → Option (List ℕ)
load_bytes m a zero = some []
load_bytes m a (suc n) = do b ← m a; bs ← load_bytes m (a + 1) n; some (b ∷ bs)

-- A packed little-endian field of `n` bytes.
unfoldable pub load : Memory → ℕ → ℕ → Option ℕ
load m a n = do bs ← load_bytes m a n; some (le bs)

-- The memory with `bs` at `[a, a + length bs)`.
unfoldable pub write : Memory → ℕ → List ℕ → Memory
write m a bs x =
    if ltb x a then m x else elim (get_elem? bs (x - a)) [ none ↦ m x | some b ↦ some b ]

unfoldable pub store_bytes : Memory → ℕ → List ℕ → Option Memory
store_bytes m a bs = do old ← load_bytes m a (length bs); some (write m a bs)

unfoldable pub store : Memory → ℕ → ℕ → ℕ → Option Memory
store m a n v = store_bytes m a (le_bytes n v)

-- Every cell holds a byte.
abbrev pub IsByteMemory : Memory → Type 0
IsByteMemory m = (a b : ℕ) → m a ≡ some b → b < 256

-- The addresses `[a, a + n)` can be read.
abbrev pub IsMapped : Memory → ℕ → ℕ → Type 0
IsMapped m a n = (x : ℕ) → a ≤ x → x < a + n → (b : ℕ) × (m x ≡ some b)
