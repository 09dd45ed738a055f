-- ===== src/Memory/Loads.antt =====
-- Loads from mapped memory return, and return bytes.
use bear_boot.Prelude.{
  ℕ, zero, suc, ◌+◌, ◌^◌, ◌≤◌, ◌<◌, ◌≡◌, refl, sym, some, List, [], ◌∷◌, ◌++◌, arith, length,
  >>=-eq-some, eq_of_some, subst,
}
use bear_boot.Bytes.{IsBytes, le, le-lt}
use bear_boot.Memory.{Memory, load_bytes, load, IsByteMemory, IsMapped}

pub load_bytes-Returns :
    (m : Memory) (a n : ℕ) → IsMapped m a n → (bs : List ℕ) × (load_bytes m a n ≡ some bs)
unfolding load_bytes
load_bytes-Returns m a zero h = ([], refl)
load_bytes-Returns m a (suc n) h =
    let (b, e) = h a (omega arith) (omega arith) in
    let (bs, es) = load_bytes-Returns m (a + 1) n (λ x p q. h x (omega arith) (omega arith)) in
    (b ∷ bs, rw (e, es))

-- A load of one byte more is the byte and the load behind it.
pub load_bytes-suc :
    (m : Memory) (a n : ℕ) (bs : List ℕ)
    → load_bytes m a (suc n) ≡ some bs
    → (b : ℕ) × (rest : List ℕ) × (m a ≡ some b)
      × (load_bytes m (a + 1) n ≡ some rest)
      × (bs ≡ b ∷ rest)
unfolding load_bytes
load_bytes-suc m a n bs e =
    let (b, eb, e') = >>=-eq-some (m a) _ e in
    let (rest, er, e'') = >>=-eq-some (load_bytes m (a + 1) n) _ e' in
    (b, rest, eb, er, sym (eq_of_some e''))

zero_length : (m : Memory) (a : ℕ) (bs : List ℕ) → load_bytes m a zero ≡ some bs → [] ≡ bs
unfolding load_bytes
zero_length m a bs e = eq_of_some e

pub length-load_bytes :
    (m : Memory) (a n : ℕ) (bs : List ℕ) → load_bytes m a n ≡ some bs → length bs ≡ n
length-load_bytes m a zero bs e = rw (← zero_length m a bs e)
length-load_bytes m a (suc n) bs e =
    let (b, rest, eb, er, shape) = load_bytes-suc m a n bs e in
    rw shape (omega (arith, length-load_bytes m (a + 1) n rest er))

pub load_bytes-IsBytes :
    (m : Memory) (a n : ℕ) (bs : List ℕ) → IsByteMemory m → load_bytes m a n ≡ some bs → IsBytes bs
load_bytes-IsBytes m a zero bs h e = subst IsBytes (zero_length m a bs e) tt
load_bytes-IsBytes m a (suc n) bs h e =
    let (b, rest, eb, er, shape) = load_bytes-suc m a n bs e in
    rw shape (h a b eb, load_bytes-IsBytes m (a + 1) n rest h er)

pub load-Returns : (m : Memory) (a n : ℕ) → IsMapped m a n → (v : ℕ) × (load m a n ≡ some v)
unfolding load
load-Returns m a n h = let (bs, e) = load_bytes-Returns m a n h in (le bs, rw e)

pub load-lt : (m : Memory) (a n v : ℕ) → IsByteMemory m → load m a n ≡ some v → v < 256 ^ n
unfolding load
load-lt m a n v h e =
    let (bs, eb, ev) = >>=-eq-some (load_bytes m a n) _ e in
    let small = le-lt n bs (load_bytes-IsBytes m a n bs h eb) in
    subst (λ x. x < 256 ^ n) (eq_of_some ev) (small (omega (arith, length-load_bytes m a n bs eb)))

pub load_bytes-add :
    (m : Memory) (a n k : ℕ) (xs ys : List ℕ)
    → load_bytes m a n ≡ some xs
    → load_bytes m (a + n) k ≡ some ys
    → load_bytes m a (n + k) ≡ some (xs ++ ys)
unfolding load_bytes
load_bytes-add m a zero k xs ys e f =
    let start : a + 0 ≡ a = omega arith in
    let count : zero + k ≡ k = omega arith in
    rw count (subst (λ zs. load_bytes m a k ≡ some (zs ++ ys)) (eq_of_some e) (rw start at f))
load_bytes-add m a (suc n) k xs ys e f =
    let (b, rest, eb, er, shape) = load_bytes-suc m a n xs e in
    let next : a + suc n ≡ a + 1 + n = omega arith in
    let count : suc n + k ≡ suc (n + k) = omega arith in
    rw (count, shape, eb, load_bytes-add m (a + 1) n k rest ys er (rw next at f))

pub IsMapped-part : (m : Memory) (a n o l : ℕ) → IsMapped m a n → o + l ≤ n → IsMapped m (a + o) l
IsMapped-part m a n o l h fits x p q = h x (omega arith) (omega arith)

pub IsMapped-prefix : (m : Memory) (a n l : ℕ) → IsMapped m a n → l ≤ n → IsMapped m a l
IsMapped-prefix m a n l h fits x p q = h x p (omega arith)
