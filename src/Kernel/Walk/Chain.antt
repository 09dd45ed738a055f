-- ===== src/Kernel/Walk/Chain.antt =====
-- The walks of kernel/bbp_kernel.c against the chain of tags as a list.
use mathlib.Core.List.{foldl}
use native.Mathlib.Nat.{add-zero, zero-add}
use bear_boot.Prelude.{
  ℕ, zero, suc, ◌+◌, ◌≤◌, ◌≡◌, refl, sym, ap, ◌∙◌, inl, inr, Bool, false, not, ◌&&◌, ◌==◌, Option,
  none, some, List, [], ◌∷◌, arith, length, if◌then◌else◌, ◌>>=◌, Bool-cases, Option-cases,
}
use bear_boot.Memory.{Memory, load_bytes}
use bear_boot.Wire.Tag
use bear_boot.Wire.Info
use bear_boot.Kernel.Region.{Kctx}
use bear_boot.Kernel.Walk.{
  max_tags, tag_at, is_corrupt, find_tag_loop, find_tag, for_each_loop, for_each_tag,
  evidence_domain, evidence_cb, evidence,
}

-- One tag of a chain as the walk sees it.
pub record Entry : Type 0 where
  pub tag : ℕ
  pub id : ℕ
  pub intact : Bool

-- From the physical address `cur` the `next_tag` fields lead through `es` to `stop`.
pub data Segment (m : Memory) (k : Kctx) (stop : ℕ) : ℕ → List Entry → Type 0 where
  done : Segment m k stop stop []
  link :
      {cur next : ℕ} {e : Entry} {es : List Entry}
      → (cur == 0) ≡ false
      → tag_at m k cur ≡ some (some e.tag)
      → Tag.tag_id m e.tag ≡ some e.id
      → is_corrupt m k e.tag ≡ some (not e.intact)
      → Tag.next_tag m e.tag ≡ some next
      → Segment m k stop next es
      → Segment m k stop cur (e ∷ es)

-- Why a walk with `left` rounds goes no further than `n` tags, at `stop`: the list ends there, the
-- tag there is not framed, or the rounds are used up.
pub data Halts (m : Memory) (k : Kctx) (stop left n : ℕ) : Type 0 where
  ended : stop ≡ 0 → n ≤ left → Halts m k stop left n
  broken : tag_at m k stop ≡ some none → n ≤ left → Halts m k stop left n
  exhausted : n ≡ left → Halts m k stop left n

-- The first intact tag with the identifier; 0 if there is none.
unfoldable pub first_match : ℕ → List Entry → ℕ
first_match tag_id [] = 0
first_match tag_id (e ∷ es) = if (e.id == tag_id) && e.intact then e.tag else first_match tag_id es

-- The intact tags, in order.
unfoldable pub delivered : List Entry → List ℕ
delivered [] = []
delivered (e ∷ es) = if e.intact then e.tag ∷ delivered es else delivered es

-- A callback run over tags until it asks to stop, with the count of calls.
unfoldable pub visit : {S : Type 0} → (ℕ → S → Option (S × Bool)) → List ℕ → ℕ → S → Option (S × ℕ)
visit cb [] n user = some (user, n)
visit cb (tag ∷ tags) n user = do
  (user', stop) ← cb tag user
  (let rest = visit cb tags (n + 1) user' in if stop then some (user', n + 1) else rest)

module _ {m : Memory} {k : Kctx} {stop : ℕ} where
  Halts-zero : {n : ℕ} → Halts m k stop 0 (suc n) → ⊥
  Halts-zero (ended _ h) = absurd (omega arith)
  Halts-zero (broken _ h) = absurd (omega arith)
  Halts-zero (exhausted h) = absurd (omega arith)

  Halts-suc : {left n : ℕ} → Halts m k stop (suc left) (suc n) → Halts m k stop left n
  Halts-suc (ended e h) = ended e (omega arith)
  Halts-suc (broken e h) = broken e (omega arith)
  Halts-suc (exhausted h) = exhausted (omega arith)

module _ (m : Memory) (k : Kctx) where
  find_tag_loop-Halts :
      (tag_id left stop : ℕ) → Halts m k stop left 0 → find_tag_loop m k tag_id left stop ≡ some 0
  unfolding find_tag_loop
  find_tag_loop-Halts tag_id zero stop h = refl
  find_tag_loop-Halts tag_id (suc left) stop (ended e _) = rw e
  find_tag_loop-Halts tag_id (suc left) stop (broken e _) = elim (Bool-cases (stop == 0)) [
    | inl z ↦ rw z
    | inr nz ↦ rw (nz, e)
  ]
  find_tag_loop-Halts tag_id (suc left) stop (exhausted e) = absurd (omega arith)

  find_tag_loop-first_match :
      (tag_id : ℕ) {stop : ℕ} (left : ℕ) {cur : ℕ} {es : List Entry}
      → Segment m k stop cur es
      → Halts m k stop left (length es)
      → find_tag_loop m k tag_id left cur ≡ some (first_match tag_id es)
  unfolding find_tag_loop first_match
  find_tag_loop-first_match tag_id {stop} left done h = find_tag_loop-Halts tag_id left stop h
  find_tag_loop-first_match tag_id zero (link nz at id corrupt next s) h = absurd (Halts-zero h)
  find_tag_loop-first_match tag_id (suc left) (link {e} {es} nz at id corrupt next s) h =
      let rest = find_tag_loop-first_match tag_id left s (Halts-suc h) in
      elim (Bool-cases (e.id == tag_id)) [
        | inr other ↦ rw (nz, at, id, other, next) rest
        | inl same ↦ elim (Bool-cases e.intact) [
          | inl sound ↦ rw (nz, at, id, same, sound, corrupt ∙ ap (λ b. some (not b)) sound) refl
          | inr bad ↦ rw (nz, at, id, same, bad, corrupt ∙ ap (λ b. some (not b)) bad, next) rest
        ]
      ]

  module _ {S : Type 0} (cb : ℕ → S → Option (S × Bool)) where
    for_each_loop-Halts :
        (left stop n : ℕ) (user : S)
        → Halts m k stop left 0
        → for_each_loop cb m k left stop n user ≡ some (user, n)
    unfolding for_each_loop
    for_each_loop-Halts zero stop n user h = refl
    for_each_loop-Halts (suc left) stop n user (ended e _) = rw e
    for_each_loop-Halts (suc left) stop n user (broken e _) = elim (Bool-cases (stop == 0)) [
      | inl z ↦ rw z
      | inr nz ↦ rw (nz, e)
    ]
    for_each_loop-Halts (suc left) stop n user (exhausted e) = absurd (omega arith)

    for_each_loop-visit :
        {stop : ℕ} (left n : ℕ) (user : S) {cur : ℕ} {es : List Entry}
        → Segment m k stop cur es
        → Halts m k stop left (length es)
        → for_each_loop cb m k left cur n user ≡ visit cb (delivered es) n user
    unfolding for_each_loop visit delivered
    for_each_loop-visit {stop} left n user done h = for_each_loop-Halts left stop n user h
    for_each_loop-visit zero n user (link nz at id corrupt next s) h = absurd (Halts-zero h)
    for_each_loop-visit (suc left) n user (link {next = after} {e} {es} nz at id corrupt next s) h =
        elim (Bool-cases e.intact) [
          | inr bad ↦
              rw (nz, at, bad, corrupt ∙ ap (λ b. some (not b)) bad, next)
                (for_each_loop-visit left n user s (Halts-suc h))
          | inl sound ↦ elim (Option-cases (cb e.tag user)) [
            | inl fault ↦ rw (nz, at, sound, corrupt ∙ ap (λ b. some (not b)) sound, fault) refl
            | inr (out, eo) ↦ elim (Bool-cases out.1) [
              | inl stops ↦
                  rw (nz, at, sound, corrupt ∙ ap (λ b. some (not b)) sound, eo, stops) refl
              | inr on ↦
                  rw (nz, at, sound, corrupt ∙ ap (λ b. some (not b)) sound, eo, on, next)
                    (for_each_loop-visit left (n + 1) out.0 s (Halts-suc h))
            ]
          ]
        ]

-- `bodies` are the whole extents of the tags, each of its declared size.
pub data Extents (m : Memory) : List ℕ → List (List ℕ) → Type 0 where
  none_left : Extents m [] []
  extent :
      {tag size : ℕ} {body : List ℕ} {tags : List ℕ} {bodies : List (List ℕ)}
      → Tag.tag_size m tag ≡ some size
      → load_bytes m tag size ≡ some body
      → Extents m tags bodies
      → Extents m (tag ∷ tags) (body ∷ bodies)

visit-evidence :
    {S : Type 0} (m : Memory) (update : S → List ℕ → S) (n : ℕ) (state : S) {tags : List ℕ}
    {bodies : List (List ℕ)}
    → Extents m tags bodies
    → visit (evidence_cb update m) tags n state
      ≡ some (foldl update state bodies, n + length bodies)
unfolding visit evidence_cb
visit-evidence m update n state none_left = ap (λ c. some (state, c)) (sym (add-zero n))
visit-evidence m update n state (extent {body} {bodies} sized loaded rest) =
    rw (sized, loaded)
      (visit-evidence m update (n + 1) (update state body) rest
        ∙ ap (λ c. some (foldl update (update state body) bodies, c)) (count n (length bodies)))
  where
    count : (a b : ℕ) → a + 1 + b ≡ a + suc b
    count a b = omega arith

module _ (m : Memory) (k : Kctx) {first stop : ℕ} {es : List Entry} (there : (k.info == 0) ≡ false)
    (starts : Info.first_tag m k.info ≡ some first) (chain : Segment m k stop first es)
    (halts : Halts m k stop 1024 (length es)) where
  -- Take an INFO structure that is not NULL and names the first tag of a chain of tags that ends,
  -- breaks at a tag that is not framed, or goes on past 1024 tags. The lookup is the first intact
  -- tag with the identifier among the tags walked, or NULL.
  pub find_tag-first_match : (tag_id : ℕ) → find_tag m k tag_id ≡ some (first_match tag_id es)
  unfolding find_tag
  find_tag-first_match tag_id =
      rw (there, starts) (find_tag_loop-first_match m k tag_id max_tags chain halts)

  -- Take an INFO structure that is not NULL and names the first tag of a chain of tags that ends,
  -- breaks at a tag that is not framed, or goes on past 1024 tags. The iteration runs the
  -- callback on the intact tags walked, in their order, each once, until the callback asks to
  -- stop, and counts its calls.
  pub for_each_tag-visit :
      {S : Type 0} (cb : ℕ → S → Option (S × Bool)) (user : S)
      → for_each_tag cb m k user ≡ visit cb (delivered es) 0 user
  unfolding for_each_tag
  for_each_tag-visit cb user =
      rw (there, starts) (for_each_loop-visit m k cb max_tags 0 user chain halts)

  -- Take an INFO structure that is not NULL and names the first tag of a chain of tags that ends,
  -- breaks at a tag that is not framed, or goes on past 1024 tags. With the INFO bytes info and
  -- the whole extents bodies of the intact tags, the evidence stream is the domain separator,
  -- then INFO, then each extent, and nothing else.
  pub evidence-stream :
      {S : Type 0} (update : S → List ℕ → S) (state : S) {info : List ℕ} {bodies : List (List ℕ)}
      → load_bytes m k.info 144 ≡ some info
      → Extents m (delivered es) bodies
      → evidence update m k state
        ≡ some (foldl update (update (update state evidence_domain) info) bodies, length bodies)
  unfolding evidence
  evidence-stream update state {info} {bodies} ei ex =
      rw (there, ei)
        (for_each_tag-visit (evidence_cb update m) (update (update state evidence_domain) info)
          ∙ visit-evidence m update 0 (update (update state evidence_domain) info) ex
          ∙ ap (λ n. some (foldl update (update (update state evidence_domain) info) bodies, n))
              (zero-add (length bodies)))
