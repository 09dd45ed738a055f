-- ===== src/Capsule/Digest/Unique.antt =====
-- The stream of `bbp_v2_digest` of v2/bbp_v2.c determines the entries: its framing is unambiguous.
use bear_boot.Prelude.{ℕ, ◌^◌, ◌<◌, ◌≡◌, refl, ap, sym, ◌∙◌, List, [], ◌∷◌, ◌++◌, arith, length}
use bear_boot.Bytes.{le, le_bytes, length-le_bytes, le-le_bytes2, le-le_bytes4, le-le_bytes8}
use bear_boot.Capsule.Digest.{digest_domain, envelope_bytes, frame_bytes}
use bear_boot.Capsule.Digest.Stream.{Item, body_chunks, chunks}

-- The bytes of a stream of chunks.
abbrev pub concat : List (List ℕ) → List ℕ
concat [] = []
concat (c ∷ cs) = c ++ concat cs

tail : List ℕ → List ℕ
tail [] = []
tail (x ∷ xs) = xs

head : List ℕ → ℕ
head [] = 0
head (x ∷ xs) = x

-- Fields of one length, in front of the rest.
split : (xs ys us vs : List ℕ) → length xs ≡ length ys → xs ++ us ≡ ys ++ vs → (xs ≡ ys) × (us ≡ vs)
unfolding head tail
split [] [] us vs len e = (refl, e)
split [] (y ∷ ys) us vs len e = absurd (omega arith)
split (x ∷ xs) [] us vs len e = absurd (omega arith)
split (x ∷ xs) (y ∷ ys) us vs len e =
    let (same, rest) = split xs ys us vs (omega arith) (ap tail e) in
    let first : x ≡ y = ap head e in (cc, rest)

-- A field of `n` bytes, whose value fits, in front of the rest.
split_field :
    (n x y : ℕ) (us vs : List ℕ)
    → le (le_bytes n x) ≡ x
    → le (le_bytes n y) ≡ y
    → le_bytes n x ++ us ≡ le_bytes n y ++ vs
    → (x ≡ y) × (us ≡ vs)
split_field n x y us vs fx fy e =
    let (same, rest) =
      split (le_bytes n x) (le_bytes n y) us vs (length-le_bytes n x ∙ sym (length-le_bytes n y))
        e in
    (sym fx ∙ ap le same ∙ fy, rest)

-- The fields of an entry have the widths of the format.
pub record IsSized (i : Item) : Type 0 where
  pub kind_lt : i.kind < 2 ^ 64
  pub flags_lt : i.flags < 2 ^ 32
  pub version_lt : i.version < 2 ^ 16
  pub size_lt : length i.bytes < 2 ^ 64

abbrev pub AllSized : List Item → Type 0
AllSized [] = Unit {0}
AllSized (i ∷ is) = IsSized i × AllSized is

append_assoc : (xs ys zs : List ℕ) → (xs ++ ys) ++ zs ≡ xs ++ (ys ++ zs)
append_assoc [] ys zs = refl
append_assoc (x ∷ xs) ys zs = ap (λ t. x ∷ t) (append_assoc xs ys zs)

frame-append :
    (k f v n : ℕ) (rest : List ℕ)
    → frame_bytes k f v n ++ rest
      ≡ le_bytes 8 k
        ++ (le_bytes 4 f
            ++ (le_bytes 2 v ++ (le_bytes 2 0 ++ (le_bytes 8 n ++ (le_bytes 8 0 ++ rest)))))
unfolding frame_bytes
frame-append k f v n rest =
    rw
      (
        append_assoc (le_bytes 8 k) _ rest,
        append_assoc (le_bytes 4 f) _ rest,
        append_assoc (le_bytes 2 v) _ rest,
        append_assoc (le_bytes 2 0) _ rest,
        append_assoc (le_bytes 8 n) (le_bytes 8 0) rest,
      )
      refl

frame_injective :
    (i j : Item) (us vs : List ℕ)
    → IsSized i
    → IsSized j
    → frame_bytes i.kind i.flags i.version (length i.bytes) ++ (i.bytes ++ us)
      ≡ frame_bytes j.kind j.flags j.version (length j.bytes) ++ (j.bytes ++ vs)
    → (i ≡ j) × (us ≡ vs)
frame_injective i j us vs si sj e =
    let e0 =
      sym (frame-append i.kind i.flags i.version (length i.bytes) (i.bytes ++ us))
      ∙ e
      ∙ frame-append j.kind j.flags j.version (length j.bytes) (j.bytes ++ vs) in
    let (kind, e1) =
      split_field 8 i.kind j.kind _ _ (le-le_bytes8 i.kind si.kind_lt)
        (le-le_bytes8 j.kind sj.kind_lt) e0 in
    let (flags, e2) =
      split_field 4 i.flags j.flags _ _ (le-le_bytes4 i.flags si.flags_lt)
        (le-le_bytes4 j.flags sj.flags_lt) e1 in
    let (version, e3) =
      split_field 2 i.version j.version _ _ (le-le_bytes2 i.version si.version_lt)
        (le-le_bytes2 j.version sj.version_lt) e2 in
    let (_, e4) = split (le_bytes 2 0) (le_bytes 2 0) _ _ refl e3 in
    let (size, e5) =
      split_field 8 (length i.bytes) (length j.bytes) _ _ (le-le_bytes8 _ si.size_lt)
        (le-le_bytes8 _ sj.size_lt) e4 in
    let (_, e6) = split (le_bytes 8 0) (le_bytes 8 0) _ _ refl e5 in
    let (bytes, e7) = split i.bytes j.bytes us vs size e6 in (item_eq kind flags version bytes, e7)
  where
    item_eq :
        i.kind ≡ j.kind → i.flags ≡ j.flags → i.version ≡ j.version → i.bytes ≡ j.bytes → i ≡ j
    item_eq k f v b = λ t. record { kind = k t; flags = f t; version = v t; bytes = b t }

-- The 32 bytes of a frame.
long :
    (i : Item) (us : List ℕ)
    → 0 < length (frame_bytes i.kind i.flags i.version (length i.bytes) ++ us)
unfolding frame_bytes le_bytes
long i us = omega arith

body_injective :
    (is js : List Item)
    → AllSized is
    → AllSized js
    → concat (body_chunks is) ≡ concat (body_chunks js)
    → is ≡ js
body_injective [] [] si sj e = refl
body_injective [] (j ∷ js) si sj e =
    absurd (omega (arith, ap length e, long j (j.bytes ++ concat (body_chunks js))))
body_injective (i ∷ is) [] si sj e =
    absurd (omega (arith, ap length e, long i (i.bytes ++ concat (body_chunks is))))
body_injective (i ∷ is) (j ∷ js) si sj e =
    let (same, rest) =
      frame_injective i j (concat (body_chunks is)) (concat (body_chunks js)) si.0 sj.0 e in
    let more = body_injective is js si.1 sj.1 rest in cc

envelope-append :
    (f n : ℕ) (rest : List ℕ)
    → envelope_bytes f n ++ rest
      ≡ le_bytes 2 2 ++ (le_bytes 2 0 ++ (le_bytes 4 f ++ (le_bytes 4 n ++ (le_bytes 4 0 ++ rest))))
unfolding envelope_bytes
envelope-append f n rest =
    rw
      (
        append_assoc (le_bytes 2 2) _ rest,
        append_assoc (le_bytes 2 0) _ rest,
        append_assoc (le_bytes 4 f) _ rest,
        append_assoc (le_bytes 4 n) (le_bytes 4 0) rest,
      )
      refl

-- The bytes hashed determine the content: two capsules whose streams are the same bytes have the
-- same flags and the same entries in the same order, with types, flags, versions and payloads,
-- where the fields have their widths. No other split of the bytes into frames exists.
pub chunks_injective :
    (f g : ℕ) (is js : List Item)
    → f < 2 ^ 32
    → g < 2 ^ 32
    → AllSized is
    → AllSized js
    → concat (chunks f is) ≡ concat (chunks g js)
    → (f ≡ g) × (is ≡ js)
chunks_injective f g is js hf hg si sj e =
    let (_, e0) = split digest_domain digest_domain _ _ refl e in
    let e1 =
      sym (envelope-append f (length is) (concat (body_chunks is)))
      ∙ e0
      ∙ envelope-append g (length js) (concat (body_chunks js)) in
    let (_, e2) = split (le_bytes 2 2) (le_bytes 2 2) _ _ refl e1 in
    let (_, e3) = split (le_bytes 2 0) (le_bytes 2 0) _ _ refl e2 in
    let (flags, e4) = split_field 4 f g _ _ (le-le_bytes4 f hf) (le-le_bytes4 g hg) e3 in
    let (_, e5) =
      split (le_bytes 4 (length is)) (le_bytes 4 (length js)) _ _
        (length-le_bytes 4 (length is) ∙ sym (length-le_bytes 4 (length js))) e4 in
    let (_, e6) = split (le_bytes 4 0) (le_bytes 4 0) _ _ refl e5 in
    (flags, body_injective is js si sj e6)
