-- ===== src/Builder/Alloc.antt =====
-- `bbp_alloc_tag` of bootloader/bbp_build.c keeps the chain well formed.
use bear_boot.Prelude.{
  ℕ, ◌+◌, ◌-◌, ◌^◌, ◌≤◌, ◌<◌, ◌≡◌, inl, inr, refl, sym, ◌∙◌, true, ◌||◌, ltb, leb, ◌!=◌, Option,
  some, List, [], ◌∷◌, ◌++◌, arith, length-append, Bool-cases, Ensures,
}
use bear_boot.Bytes.{le-le_bytes8}
use bear_boot.Memory.{Memory}
use bear_boot.Memory.Loads.{IsMapped-part}
use bear_boot.Memory.Stores.{
  Agree, Extends-trans, IsMapped-Extends, IsStored, store-IsStored, load-IsStored, load-Agree,
}
use bear_boot.Builder.{
  Builder, overflowed, max_tag, max_tags, u32_max, arena_bump, chain, place_tag, alloc_tag,
}
use bear_boot.Builder.Bump.{IsBumped, HasRoom, refused, bumped, arena_bump-IsBumped}
use bear_boot.Builder.Layout.{
  Placement, Ordered, Linked, IsBuilder, last_of, Ordered-append, Ordered-bounds, last_of-bounds,
  last_of-append,
}
use bear_boot.Builder.Stamp.{stamp-IsStamped}

-- The new tag is linked behind the last one: the store goes to the last tag's `next_tag`.
Linked-append :
    (m m' m'' : Memory) (b : Builder) (cur lo : ℕ) (p : Placement) (ps : List Placement) (hi : ℕ)
    (q : Placement)
    → Ordered lo (p ∷ ps) hi
    → hi ≤ q.offset
    → Linked m b cur (p ∷ ps)
    → Agree m m' (b.arena + lo) (hi - lo)
    → IsStored m' m'' (last_of b 0 (p ∷ ps) + 16) 8 (b.arena_phys + q.offset)
    → b.arena_phys + q.offset < 2 ^ 64
    → Linked m'' b (b.arena_phys + q.offset) (q ∷ [])
    → Linked m'' b cur (p ∷ (ps ++ (q ∷ [])))
Linked-append m m' m'' b cur lo p [] hi q (above, al, least, most, o) behind
      (here, id, size, (next, en, l)) same s fits new =
    (
      here,
      load-IsStored s (b.arena + p.offset) 8 (inl (omega arith))
          ∙ load-Agree m m' (b.arena + p.offset) 8 (λ x u v. same x (omega arith) (omega arith))
          ∙ id,
      load-IsStored s (b.arena + p.offset + 8) 4 (inl (omega arith))
          ∙ load-Agree m m' (b.arena + p.offset + 8) 4 (λ x u v. same x (omega arith) (omega arith))
          ∙ size,
      (b.arena_phys + q.offset, s.back (le-le_bytes8 (b.arena_phys + q.offset) fits), new),
    )
Linked-append m m' m'' b cur lo p (r ∷ ps) hi q (above, al, least, most, o) behind
      (here, id, size, (next, en, l)) same s fits new =
    (
      here,
      load-IsStored s (b.arena + p.offset) 8 (inl (omega (arith, far)))
          ∙ load-Agree m m' (b.arena + p.offset) 8
              (λ x u v. same x (omega arith) (omega (arith, bound)))
          ∙ id,
      load-IsStored s (b.arena + p.offset + 8) 4 (inl (omega (arith, far)))
          ∙ load-Agree m m' (b.arena + p.offset + 8) 4
              (λ x u v. same x (omega arith) (omega (arith, bound)))
          ∙ size,
      (
        next,
        load-IsStored s (b.arena + p.offset + 16) 8 (inl (omega (arith, far)))
            ∙ load-Agree m m' (b.arena + p.offset + 16) 8
                (λ x u v. same x (omega arith) (omega (arith, bound)))
            ∙ en,
        Linked-append m m' m'' b next (p.offset + p.size) r ps hi q o behind l
            (λ x u v. same x (omega arith) (omega (arith, bound))) s fits new,
      ),
    )
  where
    far : b.arena + (p.offset + p.size) ≤ last_of b (b.arena + p.offset) (r ∷ ps)
    far = (last_of-bounds b (b.arena + p.offset) (p.offset + p.size) r ps hi o).0

    bound : p.offset + p.size ≤ hi
    bound = Ordered-bounds (p.offset + p.size) (r ∷ ps) hi o

-- The words of the request are in range.
pub record IsRequest (b : Builder) (id size : ℕ) : Type 0 where
  pub id_lt : id < 2 ^ 64
  pub least : 32 ≤ size
  pub most : size ≤ 16777216
  pub free : b.tag_count < 1024

-- What `bbp_alloc_tag` does to a good builder: it refuses, writes nothing and marks the builder as
-- overflowed; or it adds the tag at the end of the chain, and the builder is good again. It refuses
-- only a request that is out of range or without room.
pub data IsAllocated (m : Memory) (b : Builder) (ps : List Placement) (id size : ℕ)
    : ℕ × Option Builder × Memory → Type 0 where
  full :
      (IsRequest b id size → (start : ℕ) → HasRoom b size start → ⊥)
      → IsAllocated m b ps id size (0, some (overflowed b), m)
  added :
      {b' : Builder} {m' : Memory} (q : Placement)
      → q.id ≡ id
      → q.size ≡ size
      → b'.overflow ≡ b.overflow
      → IsBuilder m' b' (ps ++ (q ∷ []))
      → IsAllocated m b ps id size (b.arena + q.offset, some b', m')

module _ (m : Memory) (b : Builder) (id version size start : ℕ) (room : HasRoom b size start)
    (request : IsRequest b id size) where
  open room use {fits, below_max}

  abbrev q : Placement
  q = record { offset = start; id = id; size = size }

  abbrev moved : Builder
  moved = record b { used = start + size }

  place_first :
      IsBuilder m b []
      → Ensures
          (IsAllocated m b [] id size)
          (place_tag m id version size (some (b.arena + start, b.arena_phys + start), moved))
  unfolding place_tag chain
  place_first good =
      let (m', e, st) =
        stamp-IsStamped m (b.arena + start) id version size request.id_lt
          (omega (arith, request.most))
          (IsMapped-part m b.arena b.capacity start 32 good.mapped
            (omega (arith, request.least))) in
      rw (e, good.last)
        (
          _,
          refl,
          added q refl refl refl (record {
            sized = record { capacity_lt = good.sized.capacity_lt; used_le = fits };
            phys_pos = good.phys_pos;
            phys_aligned = good.phys_aligned;
            below_max = omega arith;
            virt_lt = good.virt_lt;
            arena_pos = good.arena_pos;
            bytes = st.bytes good.bytes;
            mapped = IsMapped-Extends m m' b.arena b.capacity st.extends good.mapped;
            ordered = (omega arith, room.aligned, request.least, request.most, omega arith);
            linked = (refl, st.identified, st.sized, (0, st.last, refl));
            last = refl;
            count = omega (arith, good.count);
            few = omega arith;
          }),
        )

  place_next :
      (p : Placement) (ps : List Placement)
      → IsBuilder m b (p ∷ ps)
      → Ensures
          (IsAllocated m b (p ∷ ps) id size)
          (place_tag m id version size (some (b.arena + start, b.arena_phys + start), moved))
  unfolding place_tag chain
  place_next p ps good =
      let (m', e, st) =
        stamp-IsStamped m (b.arena + start) id version size request.id_lt
          (omega (arith, request.most))
          (IsMapped-part m b.arena b.capacity start 32 good.mapped
            (omega (arith, request.least))) in
      let (low, high) = last_of-bounds b 0 0 p ps b.used good.ordered in
      let there : (b.last != 0) ≡ true = ground (arith, good.last, good.arena_pos) in
      let (m'', e', s) = store-IsStored m' (last_of b 0 (p ∷ ps) + 16) 8 (b.arena_phys + start) (
        IsMapped-Extends m m' _ _ st.extends
          (λ x u v. good.mapped x (omega arith) (omega (arith, good.sized.used_le)))) in
      let kept = Extends-trans m m' m'' st.extends s.extends in
      let at : b.last + 16 ≡ last_of b 0 (p ∷ ps) + 16 = omega (arith, good.last) in
      let behind : b.used ≤ start = room.at_least in
      rw (e, there, at, e')
        (
          _,
          refl,
          added q refl refl refl (record {
            sized = record { capacity_lt = good.sized.capacity_lt; used_le = fits };
            phys_pos = good.phys_pos;
            phys_aligned = good.phys_aligned;
            below_max = omega arith;
            virt_lt = good.virt_lt;
            arena_pos = good.arena_pos;
            bytes = s.bytes (st.bytes good.bytes);
            mapped = IsMapped-Extends m m'' b.arena b.capacity kept good.mapped;
            ordered =
                Ordered-append 0 (p ∷ ps) b.used q good.ordered behind room.aligned request.least
                  request.most;
            linked =
                Linked-append m m' m'' b b.first_phys 0 p ps b.used q good.ordered behind
                  good.linked (λ x u v. st.same x (inl (omega arith))) s (omega arith)
                  (
                    refl,
                    load-IsStored s (b.arena + start) 8 (inr (omega arith)) ∙ st.identified,
                    load-IsStored s (b.arena + start + 8) 4 (inr (omega arith)) ∙ st.sized,
                    (
                      0,
                      load-IsStored s (b.arena + start + 16) 8 (inr (omega arith)) ∙ st.last,
                      refl,
                    ),
                  );
            last = sym (last_of-append b 0 (p ∷ ps) q);
            count = omega (arith, good.count, length-append (p ∷ ps) (q ∷ []));
            few = omega (arith, good.count, request.free, length-append (p ∷ ps) (q ∷ []));
          }),
        )

-- On a good builder and a 64-bit identifier, the allocation of a tag returns. It adds the tag
-- behind the chain and leaves the builder good; or it refuses, writes nothing and marks the builder
-- as overflowed, which it does only for a size or a count out of range or for want of room.
pub alloc_tag-IsAllocated :
    (m : Memory) (b : Builder) (ps : List Placement) (id version size : ℕ)
    → IsBuilder m b ps
    → id < 2 ^ 64
    → Ensures (IsAllocated m b ps id size) (alloc_tag m (some b) id version size)
unfolding alloc_tag
alloc_tag-IsAllocated m b ps id version size good id_lt =
    elim (Bool-cases
      (ltb size 32 || (ltb max_tag size || (ltb u32_max size || leb max_tags b.tag_count)))) [
        | inl bad ↦ rw bad (_, refl, full (λ q s r. ground (arith, q.least, q.most, q.free)))
        | inr fine ↦ rw fine (
            place (arena_bump b size) (arena_bump-IsBumped b size good.sized) (record {
              id_lt = id_lt;
              least = ground arith;
              most = ground arith;
              free = ground arith;
            }))
      ]
  where
    from :
        (ps : List Placement) (start : ℕ)
        → HasRoom b size start
        → IsRequest b id size
        → IsBuilder m b ps
        → Ensures (IsAllocated m b ps id size) (
            place_tag m id version size
              (some (b.arena + start, b.arena_phys + start), record b { used = start + size }))
    from [] start room q g = place_first m b id version size start room q g
    from (p ∷ ps) start room q g = place_next m b id version size start room q p ps g

    place :
        (r : Option (ℕ × ℕ) × Builder)
        → IsBumped b size r
        → IsRequest b id size
        → Ensures (IsAllocated m b ps id size) (place_tag m id version size r)
    place r (refused none_fits) q = unfold place_tag in (_, refl, full (λ _. none_fits))
    place r (bumped start room) q = from ps start room q good
