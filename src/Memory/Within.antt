-- ===== src/Memory/Within.antt =====
-- Writes that stay inside a range of addresses.
use bear_boot.Prelude.{
  ℕ, ◌+◌, ◌≤◌, ◌<◌, ◌≡◌, ◌⊎◌, inl, inr, refl, ◌∙◌, Option, List, arith, length, Ensures, ◌>>=◌,
}
use bear_boot.Bytes.{IsBytes}
use bear_boot.Memory.{Memory, store_bytes, store, IsByteMemory, IsMapped}
use bear_boot.Memory.Stores.{
  IsStored, Extends, Extends-trans, IsMapped-Extends, store-IsStored, store_bytes-IsStored,
}

-- `m'` is `m` but for bytes of `[a, a + n)`, has all its addresses, and holds bytes if `m` does.
pub record IsWithin (a n : ℕ) (m m' : Memory) : Type 0 where
  pub outside : (x : ℕ) → (x < a) ⊎ (a + n ≤ x) → m' x ≡ m x
  pub extends : Extends m m'
  pub bytes : IsByteMemory m → IsByteMemory m'

pub IsWithin-refl : (a n : ℕ) (m : Memory) → IsWithin a n m m
IsWithin-refl a n m = record { outside = λ x h. refl; extends = λ x b e. (b, e); bytes = λ h. h }

pub IsWithin-trans :
    (a n : ℕ) (m m' m'' : Memory) → IsWithin a n m m' → IsWithin a n m' m'' → IsWithin a n m m''
IsWithin-trans a n m m' m'' f g = record {
  outside = λ x h. g.outside x h ∙ f.outside x h;
  extends = Extends-trans m m' m'' f.extends g.extends;
  bytes = λ h. g.bytes (f.bytes h);
}

-- A range inside another one.
pub IsWithin-widen :
    (a n c k : ℕ) (m m' : Memory) → a ≤ c → c + k ≤ a + n → IsWithin c k m m' → IsWithin a n m m'
IsWithin-widen a n c k m m' low high w = record {
  outside = λ x h. w.outside x (beyond x h);
  extends = w.extends;
  bytes = w.bytes;
}
  where
    beyond : (x : ℕ) → (x < a) ⊎ (a + n ≤ x) → (x < c) ⊎ (c + k ≤ x)
    beyond x (inl h) = inl (omega arith)
    beyond x (inr h) = inr (omega arith)

pub IsWithin-store :
    (a n : ℕ) (m m' : Memory) (c k v : ℕ)
    → IsStored m m' c k v
    → a ≤ c
    → c + k ≤ a + n
    → IsWithin a n m m'
IsWithin-store a n m m' c k v s low high =
    IsWithin-widen a n c k m m' low high
      (record { outside = λ x h. s.same x h; extends = s.extends; bytes = s.bytes })

module _ (a n : ℕ) where
  -- The writes return, and stay within.
  abbrev pub Writes : Memory → Option Memory → Type 0
  Writes m o = Ensures (IsWithin a n m) o

  -- One write behind another.
  pub Writes-then :
      (m : Memory) (o : Option Memory) (k : Memory → Option Memory)
      → Writes m o
      → ((m' : Memory) → IsWithin a n m m' → Writes m' (k m'))
      → Writes m (o >>= k)
  Writes-then m o k (m1, e1, w1) rest =
      let (m2, e2, w2) = rest m1 w1 in (m2, rw e1 e2, IsWithin-trans a n m m1 m2 w1 w2)

  module _ (m : Memory) (mapped : IsMapped m a n) where
    pub store-Writes : (c k v : ℕ) → a ≤ c → c + k ≤ a + n → Writes m (store m c k v)
    store-Writes c k v low high =
        let (m', e, s) = store-IsStored m c k v (λ x p q. mapped x (omega arith) (omega arith)) in
        (
          m',
          e,
          record { outside = λ x h. s.same x (beyond x h); extends = s.extends; bytes = s.bytes },
        )
      where
        beyond : (x : ℕ) → (x < a) ⊎ (a + n ≤ x) → (x < c) ⊎ (c + k ≤ x)
        beyond x (inl h) = inl (omega arith)
        beyond x (inr h) = inr (omega arith)

    store_bytes-Writes :
        (c : ℕ) (bs : List ℕ)
        → IsBytes bs
        → a ≤ c
        → c + length bs ≤ a + n
        → Writes m (store_bytes m c bs)
    store_bytes-Writes c bs is low high =
        let (m', e, back, same, extends, bytes) =
          store_bytes-IsStored m c bs (λ x p q. mapped x (omega arith) (omega arith)) is in
        (m', e, record { outside = λ x h. same x (beyond x h); extends = extends; bytes = bytes })
      where
        beyond : (x : ℕ) → (x < a) ⊎ (a + n ≤ x) → (x < c) ⊎ (c + length bs ≤ x)
        beyond x (inl h) = inl (omega arith)
        beyond x (inr h) = inr (omega arith)

    -- A store, and then what is written behind it.
    pub store-then :
        (c k v : ℕ) (rest : Memory → Option Memory)
        → a ≤ c
        → c + k ≤ a + n
        → ((m' : Memory) → IsMapped m' a n → IsWithin a n m m' → Writes m' (rest m'))
        → Writes m (store m c k v >>= rest)
    store-then c k v rest low high next =
        Writes-then m (store m c k v) rest (store-Writes c k v low high)
          (λ m' w. next m' (IsMapped-Extends m m' a n w.extends mapped) w)

    pub store_bytes-then :
        (c : ℕ) (bs : List ℕ) (rest : Memory → Option Memory)
        → IsBytes bs
        → a ≤ c
        → c + length bs ≤ a + n
        → ((m' : Memory) → IsMapped m' a n → IsWithin a n m m' → Writes m' (rest m'))
        → Writes m (store_bytes m c bs >>= rest)
    store_bytes-then c bs rest is low high next =
        Writes-then m (store_bytes m c bs) rest (store_bytes-Writes c bs is low high)
          (λ m' w. next m' (IsMapped-Extends m m' a n w.extends mapped) w)
