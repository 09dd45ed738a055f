-- ===== src/Kernel/Walk/Safety.antt =====
-- The walks of kernel/bbp_kernel.c over an untrusted chain: with the walk window mapped they touch
-- no other address, they stop, and what they hand out has been validated.
use bear_boot.Prelude.{
  ℕ, zero, suc, ◌+◌, ◌-◌, ◌≤◌, ◌<◌, ◌≡◌, refl, ◌∙◌, ap, ◌⊎◌, inl, inr, Bool, false, ◌==◌, Option,
  some, arith, ltb, Bool-cases, Option-cases, Returns, Ensures, ==_iff, List,
}
use bear_boot.Memory.{Memory, IsMapped}
use bear_boot.Memory.Loads.{load_bytes-Returns, load-Returns, IsMapped-part, IsMapped-prefix}
use bear_boot.Wire.Tag
use bear_boot.Wire.Info
use bear_boot.Kernel.Region.{Kctx}
use bear_boot.Kernel.Region.Bounds.{IsContext}
use bear_boot.Kernel.Seal.{crc_skip}
use bear_boot.Kernel.Walk.{
  max_tags, tag_crc_ok, is_corrupt, find_tag_loop, find_tag, for_each_loop, for_each_tag,
  evidence_cb, evidence,
}
use bear_boot.Kernel.Walk.Framing.{
  IsFramed, IsWindowMapped, IsMapped-window, tag_at-IsFramed, tag_at-Returns,
}

pub crc_skip-Returns :
    (m : Memory) (base len off : ℕ) → IsMapped m base len → Returns (crc_skip m base len off)
unfolding crc_skip
crc_skip-Returns m base len off h = elim (Bool-cases (ltb len (off + 8))) [
  | inl short ↦ rw short (_, refl)
  | inr long ↦
      let (head, eh) =
        load_bytes-Returns m base off (IsMapped-prefix m base len off h (ground arith)) in
      let (tail, et) =
        load_bytes-Returns m (base + off + 8) (len - off - 8)
          (λ x p q. h x (omega arith) (ground arith)) in
      rw (long, eh, et) (_, refl)
]

-- A tag that a lookup may hand out: framed at some physical address, with the identifier, and with
-- a matching checksum if the context asks for it.
pub record IsFound (m : Memory) (k : Kctx) (tag_id tag : ℕ) : Type 0 where
  pub cur : ℕ
  pub framed : IsFramed m k cur tag
  pub identified : Tag.tag_id m tag ≡ some tag_id
  pub sound : is_corrupt m k tag ≡ some false

module _ (m : Memory) (k : Kctx) (words : IsContext k) (active : k.walk_lo < k.walk_hi)
    (mapped : IsWindowMapped m k) where
  pub IsFramed-IsMapped : {cur tag : ℕ} (f : IsFramed m k cur tag) → IsMapped m tag f.size
  IsFramed-IsMapped {cur} f =
      rw f.translated (IsMapped-window m k words active mapped cur f.size f.inside)

  module _ {cur tag : ℕ} (f : IsFramed m k cur tag) where
    pub tag_id-Returns : Returns (Tag.tag_id m tag)
    tag_id-Returns =
        load-Returns m tag 8
          (IsMapped-prefix m tag f.size 8 (IsFramed-IsMapped f) (omega (arith, f.at_least)))

    pub next_tag-Returns : Returns (Tag.next_tag m tag)
    next_tag-Returns =
        load-Returns m (tag + 16) 8
          (IsMapped-part m tag f.size 16 8 (IsFramed-IsMapped f) (omega (arith, f.at_least)))

    checksum-Returns : Returns (Tag.checksum m tag)
    checksum-Returns =
        load-Returns m (tag + 24) 8
          (IsMapped-part m tag f.size 24 8 (IsFramed-IsMapped f) (omega (arith, f.at_least)))

    pub is_corrupt-Returns : Returns (is_corrupt m k tag)
    unfolding is_corrupt tag_crc_ok
    is_corrupt-Returns =
        let (got, eg) = crc_skip-Returns m tag f.size Tag.checksum_offset (IsFramed-IsMapped f) in
        let (sealed, es) = checksum-Returns in
        elim (Bool-cases k.verify_tag_crc) [
          | inl verify ↦ rw (verify, f.sized, eg, es) (_, refl)
          | inr trusting ↦ rw trusting (_, refl)
        ]

  find_tag_loop-safe :
      (tag_id left cur : ℕ)
      → Ensures (λ t. (t ≡ 0) ⊎ IsFound m k tag_id t) (find_tag_loop m k tag_id left cur)
  unfolding find_tag_loop
  find_tag_loop-safe tag_id zero cur = (0, refl, inl refl)
  find_tag_loop-safe tag_id (suc left) cur = elim (Bool-cases (cur == 0)) [
    | inl ended ↦ rw ended (0, refl, inl refl)
    | inr going ↦
        let (at, e) = tag_at-Returns m k words active mapped cur in
        elim (Option-cases at) [
          | inl stop ↦ rw (going, e ∙ ap some stop) (0, refl, inl refl)
          | inr (tag, got) ↦
              let f = tag_at-IsFramed m k words cur tag (e ∙ ap some got) in
              let (id, ei) = tag_id-Returns f in
              let (corrupt, ec) = is_corrupt-Returns f in
              let (next, en) = next_tag-Returns f in
              let rest = find_tag_loop-safe tag_id left next in
              rw (going, e ∙ ap some got, ei)
                (elim (Bool-cases (id == tag_id)) [
                  | inr other ↦ rw (other, en) rest
                  | inl same ↦ elim (Bool-cases corrupt) [
                    | inl bad ↦ rw (same, ec ∙ ap some bad, en) rest
                    | inr good ↦
                        rw (same, ec ∙ ap some good)
                          (
                            tag,
                            refl,
                            inr (record {
                              cur = cur;
                              framed = f;
                              identified = ei ∙ ap some ((==_iff id tag_id).0 same);
                              sound = ec ∙ ap some good;
                            }),
                          )
                  ]
                ])
        ]
  ]

  module _ (header : IsMapped m k.info 144) where
    first_tag-Returns : Returns (Info.first_tag m k.info)
    first_tag-Returns = load-Returns m _ 8 (IsMapped-part m k.info 144 120 8 header (omega arith))

    -- In a context of 64-bit words with a nonempty walk window, with the INFO structure and the
    -- window mapped, and whatever bytes they hold, the lookup of a tag returns without a fault.
    -- Its result is NULL or a tag that is framed in the window, has the wanted identifier, and
    -- has a matching checksum if the context asks for it.
    pub find_tag-safe :
        (tag_id : ℕ) → Ensures (λ t. (t ≡ 0) ⊎ IsFound m k tag_id t) (find_tag m k tag_id)
    unfolding find_tag
    find_tag-safe tag_id = elim (Bool-cases (k.info == 0)) [
      | inl null ↦ rw null (0, refl, inl refl)
      | inr there ↦
          let (first, e) = first_tag-Returns in
          rw (there, e) (find_tag_loop-safe tag_id max_tags first)
    ]

    -- A callback that returns on each tag that is framed and intact.
    abbrev IsCallback : {S : Type 0} → (ℕ → S → Option (S × Bool)) → Type 0
    IsCallback {S} cb =
        (cur tag : ℕ) (user : S)
        → IsFramed m k cur tag
        → is_corrupt m k tag ≡ some false
        → Returns (cb tag user)

    module _ {S : Type 0} (cb : ℕ → S → Option (S × Bool)) (good : IsCallback cb) where
      for_each_loop-safe :
          (left cur n : ℕ) (user : S)
          → Ensures (λ r. r.1 ≤ n + left) (for_each_loop cb m k left cur n user)
      unfolding for_each_loop
      for_each_loop-safe zero cur n user = ((user, n), refl, omega arith)
      for_each_loop-safe (suc left) cur n user = elim (Bool-cases (cur == 0)) [
        | inl ended ↦ rw ended ((user, n), refl, omega arith)
        | inr going ↦
            let (at, e) = tag_at-Returns m k words active mapped cur in
            elim (Option-cases at) [
              | inl stop ↦ rw (going, e ∙ ap some stop) ((user, n), refl, omega arith)
              | inr (tag, got) ↦
                  let f = tag_at-IsFramed m k words cur tag (e ∙ ap some got) in
                  let (corrupt, ec) = is_corrupt-Returns f in
                  let (next, en) = next_tag-Returns f in
                  elim (Bool-cases corrupt) [
                    | inl bad ↦
                        let (r, er, bound) = for_each_loop-safe left next n user in
                        rw (going, e ∙ ap some got, ec ∙ ap some bad, en) (r, er, omega arith)
                    | inr sound ↦
                        let (out, eo) = good cur tag user f (ec ∙ ap some sound) in
                        elim (Bool-cases out.1) [
                          | inl stop ↦
                              rw (going, e ∙ ap some got, ec ∙ ap some sound, eo, stop)
                                ((out.0, n + 1), refl, omega arith)
                          | inr on ↦
                              let (r, er, bound) = for_each_loop-safe left next (n + 1) out.0 in
                              rw (going, e ∙ ap some got, ec ∙ ap some sound, eo, on, en)
                                (r, er, omega arith)
                        ]
                  ]
            ]
      ]

      -- In a context of 64-bit words with a nonempty walk window, with the INFO structure and the
      -- window mapped, and whatever bytes they hold, and for a callback that returns on every
      -- framed and intact tag, the iteration returns without a fault, and has delivered at most
      -- 1024 tags.
      pub for_each_tag-safe : (user : S) → Ensures (λ r. r.1 ≤ 1024) (for_each_tag cb m k user)
      unfolding for_each_tag
      for_each_tag-safe user = elim (Bool-cases (k.info == 0)) [
        | inl null ↦ rw null ((user, 0), refl, omega arith)
        | inr there ↦
            let (first, e) = first_tag-Returns in
            let (r, er, bound) = for_each_loop-safe max_tags first 0 user in
            rw (there, e) (r, er, omega arith)
      ]

    -- In a context of 64-bit words with a nonempty walk window, with the INFO structure and the
    -- window mapped, and whatever bytes they hold, hashing the evidence of the hand-off returns
    -- without a fault, and covers at most 1024 tags.
    pub evidence-safe :
        {S : Type 0} (update : S → List ℕ → S) (state : S)
        → Ensures (λ r. r.1 ≤ 1024) (evidence update m k state)
    unfolding evidence evidence_cb
    evidence-safe update state = elim (Bool-cases (k.info == 0)) [
      | inl null ↦ rw null ((state, 0), refl, omega arith)
      | inr there ↦
          let (info, e) = load_bytes-Returns m k.info 144 header in
          rw (there, e) (for_each_tag-safe (evidence_cb update m) hashes _)
    ]
      where
        hashes : IsCallback (evidence_cb update m)
        hashes cur tag user f sound =
            let (bytes, eb) = load_bytes-Returns m tag f.size (IsFramed-IsMapped f) in
            rw (f.sized, eb) (_, refl)
