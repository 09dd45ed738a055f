-- ===== src/Memory/Stores.antt =====
-- A store changes the bytes that it names and no others.
use bear_boot.Prelude.{
  ℕ, zero, suc, ◌+◌, ◌-◌, ◌≤◌, ◌<◌, ◌≡◌, ◌⊎◌, inl, inr, refl, ap, some, none, false, List, [], ◌∷◌,
  arith, length, get_elem?, ltb, Bool-cases, Option-cases,
}
use bear_boot.Bytes.{IsBytes, le, le_bytes, le_bytes-IsBytes, length-le_bytes}
use bear_boot.Memory.{Memory, load_bytes, load, write, store_bytes, store, IsByteMemory, IsMapped}
use bear_boot.Memory.Loads.{load_bytes-Returns}

-- Two memories hold the same on `[a, a + n)`.
abbrev pub Agree : Memory → Memory → ℕ → ℕ → Type 0
Agree m m' a n = (x : ℕ) → a ≤ x → x < a + n → m' x ≡ m x

pub load_bytes-Agree :
    (m m' : Memory) (a n : ℕ) → Agree m m' a n → load_bytes m' a n ≡ load_bytes m a n
unfolding load_bytes
load_bytes-Agree m m' a zero h = refl
load_bytes-Agree m m' a (suc n) h =
    rw
      (
        h a (omega arith) (omega arith),
        load_bytes-Agree m m' (a + 1) n (λ x p q. h x (omega arith) (omega arith)),
      )
      refl

pub load-Agree : (m m' : Memory) (a n : ℕ) → Agree m m' a n → load m' a n ≡ load m a n
unfolding load
load-Agree m m' a n h = rw (load_bytes-Agree m m' a n h) refl

get_elem?-past : (bs : List ℕ) (i : ℕ) → length bs ≤ i → get_elem? bs i ≡ none
get_elem?-past [] i h = refl
get_elem?-past (b ∷ bs) zero h = absurd (omega arith)
get_elem?-past (b ∷ bs) (suc i) h = get_elem?-past bs i (omega arith)

pub write-outside :
    (m : Memory) (a : ℕ) (bs : List ℕ) (x : ℕ)
    → (x < a) ⊎ (a + length bs ≤ x)
    → write m a bs x ≡ m x
unfolding write
write-outside m a bs x (inl below) = ground arith
write-outside m a bs x (inr above) =
    let past : get_elem? bs (x - a) ≡ none = get_elem?-past bs (x - a) (omega arith) in
    let up : ltb x a ≡ false = ground arith in rw (up, past) refl

-- The first byte of a store, and the store behind it.
write-cons :
    (m : Memory) (a b : ℕ) (bs : List ℕ) (x : ℕ)
    → a < x
    → write m a (b ∷ bs) x ≡ write m (a + 1) bs x
unfolding write
write-cons m a b bs x h =
    let up : ltb x a ≡ false = ground arith in
    let up' : ltb x (a + 1) ≡ false = ground arith in
    let off : x - a ≡ suc (x - (a + 1)) = omega arith in rw (up, up', off) refl

write-head : (m : Memory) (a b : ℕ) (bs : List ℕ) → write m a (b ∷ bs) a ≡ some b
unfolding write
write-head m a b bs =
    let up : ltb a a ≡ false = ground arith in
    let off : a - a ≡ zero = omega arith in rw (up, off) refl

pub load_bytes-write_self :
    (m : Memory) (a : ℕ) (bs : List ℕ) → load_bytes (write m a bs) a (length bs) ≡ some bs
unfolding load_bytes
load_bytes-write_self m a [] = refl
load_bytes-write_self m a (b ∷ bs) =
    rw
      (
        write-head m a b bs,
        load_bytes-Agree (write m (a + 1) bs) (write m a (b ∷ bs)) (a + 1) (length bs)
            (λ x p q. write-cons m a b bs x (omega arith)),
        load_bytes-write_self m (a + 1) bs,
      )
      refl

-- The bytes of a store lie in the range that it names.
pub load_bytes-write_ne :
    (m : Memory) (a c n : ℕ) (bs : List ℕ)
    → (c + n ≤ a) ⊎ (a + length bs ≤ c)
    → load_bytes (write m a bs) c n ≡ load_bytes m c n
load_bytes-write_ne m a c n bs h =
    load_bytes-Agree m (write m a bs) c n λ x p q. write-outside m a bs x (apart h p q)
  where
    apart :
        {x : ℕ}
        → (c + n ≤ a) ⊎ (a + length bs ≤ c)
        → c ≤ x
        → x < c + n
        → (x < a) ⊎ (a + length bs ≤ x)
    apart (inl h) p q = inl (omega arith)
    apart (inr h) p q = inr (omega arith)

pub write-IsMapped :
    (m : Memory) (a : ℕ) (bs : List ℕ) (x b : ℕ)
    → m x ≡ some b
    → (c : ℕ) × (write m a bs x ≡ some c)
unfolding write
write-IsMapped m a bs x b h = elim (Bool-cases (ltb x a)) [
  | inl below ↦ rw below (b, h)
  | inr up ↦ elim (Option-cases (get_elem? bs (x - a))) [
    | inl past ↦ rw (up, past) (b, h)
    | inr (c, e) ↦ rw (up, e) (c, refl)
  ]
]

-- `m'` maps what `m` maps.
abbrev pub Extends : Memory → Memory → Type 0
Extends m m' = (x b : ℕ) → m x ≡ some b → (c : ℕ) × (m' x ≡ some c)

pub IsMapped-Extends : (m m' : Memory) (a n : ℕ) → Extends m m' → IsMapped m a n → IsMapped m' a n
IsMapped-Extends m m' a n h mapped x p q = let (b, e) = mapped x p q in h x b e

get_elem?-IsBytes : (bs : List ℕ) (i b : ℕ) → IsBytes bs → get_elem? bs i ≡ some b → b < 256
get_elem?-IsBytes [] i b h e = cc
get_elem?-IsBytes (c ∷ bs) zero b h e = ground arith
get_elem?-IsBytes (c ∷ bs) (suc i) b h e = get_elem?-IsBytes bs i b h.1 e

pub write-IsByteMemory :
    (m : Memory) (a : ℕ) (bs : List ℕ) → IsByteMemory m → IsBytes bs → IsByteMemory (write m a bs)
unfolding write
write-IsByteMemory m a bs h hb x b e = ground (arith, h x b, get_elem?-IsBytes bs (x - a) b hb)

pub store_bytes-write :
    (m : Memory) (a : ℕ) (bs : List ℕ)
    → IsMapped m a (length bs)
    → store_bytes m a bs ≡ some (write m a bs)
unfolding store_bytes
store_bytes-write m a bs h = let (old, e) = load_bytes-Returns m a (length bs) h in rw e refl

module _ (m : Memory) (a n v : ℕ) where
  pub store-write : IsMapped m a n → store m a n v ≡ some (write m a (le_bytes n v))
  unfolding store
  store-write h =
      store_bytes-write m a (le_bytes n v) (λ x p q. h x p (omega (arith, length-le_bytes n v)))

  -- A number that is stored and fits is loaded back.
  pub load-write_self : le (le_bytes n v) ≡ v → load (write m a (le_bytes n v)) a n ≡ some v
  unfolding load
  load-write_self fits = rw (loaded) (ap some fits)
    where
      loaded : load_bytes (write m a (le_bytes n v)) a n ≡ some (le_bytes n v)
      loaded = rw (length-le_bytes n v) at (load_bytes-write_self m a (le_bytes n v))

  -- A store elsewhere does not change what is loaded.
  pub load-write_ne :
      (c k : ℕ) → (c + k ≤ a) ⊎ (a + n ≤ c) → load (write m a (le_bytes n v)) c k ≡ load m c k
  unfolding load
  load-write_ne c k h = rw (load_bytes-write_ne m a c k (le_bytes n v) (sized h)) refl
    where
      sized : (c + k ≤ a) ⊎ (a + n ≤ c) → (c + k ≤ a) ⊎ (a + length (le_bytes n v) ≤ c)
      sized (inl h) = inl h
      sized (inr h) = inr (omega (arith, length-le_bytes n v))

  pub write-le_bytes-outside : (x : ℕ) → (x < a) ⊎ (a + n ≤ x) → write m a (le_bytes n v) x ≡ m x
  write-le_bytes-outside x (inl h) = write-outside m a (le_bytes n v) x (inl h)
  write-le_bytes-outside x (inr h) =
      write-outside m a (le_bytes n v) x (inr (omega (arith, length-le_bytes n v)))

  pub write-le_bytes-IsByteMemory : IsByteMemory m → IsByteMemory (write m a (le_bytes n v))
  write-le_bytes-IsByteMemory h = write-IsByteMemory m a (le_bytes n v) h (le_bytes-IsBytes n v)

  pub write-le_bytes-Extends : Extends m (write m a (le_bytes n v))
  write-le_bytes-Extends x b e = write-IsMapped m a (le_bytes n v) x b e

-- The outcome of a store: the value can be loaded back, nothing else changed, and no address was
-- lost.
pub record IsStored (m m' : Memory) (a n v : ℕ) : Type 0 where
  pub back : le (le_bytes n v) ≡ v → load m' a n ≡ some v
  pub same : (x : ℕ) → (x < a) ⊎ (a + n ≤ x) → m' x ≡ m x
  pub extends : Extends m m'
  pub bytes : IsByteMemory m → IsByteMemory m'

pub store-IsStored :
    (m : Memory) (a n v : ℕ)
    → IsMapped m a n
    → (m' : Memory) × (store m a n v ≡ some m') × IsStored m m' a n v
store-IsStored m a n v h = (
  write m a (le_bytes n v),
  store-write m a n v h,
  record {
    back = load-write_self m a n v;
    same = write-le_bytes-outside m a n v;
    extends = write-le_bytes-Extends m a n v;
    bytes = write-le_bytes-IsByteMemory m a n v;
  },
)

-- What was loaded elsewhere is loaded still.
pub load-IsStored :
    {m m' : Memory} {a n v : ℕ} (s : IsStored m m' a n v) (c k : ℕ)
    → (c + k ≤ a) ⊎ (a + n ≤ c)
    → load m' c k ≡ load m c k
load-IsStored {m} {m'} {a} {n} s c k h = load-Agree m m' c k (λ x p q. s.same x (apart h p q))
  where
    apart : {x : ℕ} → (c + k ≤ a) ⊎ (a + n ≤ c) → c ≤ x → x < c + k → (x < a) ⊎ (a + n ≤ x)
    apart (inl h) p q = inl (omega arith)
    apart (inr h) p q = inr (omega arith)

pub Extends-trans : (m m' m'' : Memory) → Extends m m' → Extends m' m'' → Extends m m''
Extends-trans m m' m'' f g x b e = let (c, e') = f x b e in g x c e'

pub store_bytes-IsStored :
    (m : Memory) (a : ℕ) (bs : List ℕ)
    → IsMapped m a (length bs)
    → IsBytes bs
    → (m' : Memory) × (store_bytes m a bs ≡ some m')
      × (load_bytes m' a (length bs) ≡ some bs)
      × ((x : ℕ) → (x < a) ⊎ (a + length bs ≤ x) → m' x ≡ m x)
      × Extends m m'
      × (IsByteMemory m → IsByteMemory m')
store_bytes-IsStored m a bs h hb = (
  write m a bs,
  store_bytes-write m a bs h,
  load_bytes-write_self m a bs,
  write-outside m a bs,
  λ x b e. write-IsMapped m a bs x b e,
  λ g. write-IsByteMemory m a bs g hb,
)
