-- ===== src/Kernel/Payload.antt =====
-- The accessors of kernel/bbp_kernel.h for the array that trails a tag.
use native.Mathlib.Nat.{le-div_iff_mul-le}
use bear_boot.Prelude.{
  ℕ, ◌+◌, ◌-◌, ◌*◌, ◌/◌, ◌≤◌, ◌<◌, ◌≡◌, refl, ◌&&◌, not, ltb, ◌!=◌, if◌then◌else◌, Option, some,
  arith, ◌>>=◌,
}
use bear_boot.Memory.{Memory}
use bear_boot.Wire.Tag

-- `bbp_tag_payload`.
unfoldable pub tag_payload : ℕ → ℕ → ℕ
tag_payload tag fixed_size = tag + fixed_size

-- The count of elements that fit.
unfoldable pub fitting : ℕ → ℕ → ℕ → ℕ
fitting tag_size fixed_size elem_size =
    if not ((elem_size != 0) && ltb fixed_size tag_size)
    then 0
    else let n = (tag_size - fixed_size) / elem_size in if ltb 0xFFFFFFFF n then 0xFFFFFFFF else n

-- `bbp_tag_array`: the array's address, and what it stores through `out_count`.
unfoldable pub tag_array : Memory → ℕ → ℕ → ℕ → ℕ → Option (ℕ × ℕ)
tag_array m tag fixed_size elem_size claimed = do
  tag_size ← Tag.tag_size m tag
  let fit = fitting tag_size fixed_size elem_size
  some (tag + fixed_size, if ltb claimed fit then claimed else fit)

fitting-fits :
    (tag_size fixed_size elem_size count : ℕ)
    → 0 < count
    → count ≤ fitting tag_size fixed_size elem_size
    → fixed_size + count * elem_size ≤ tag_size
unfolding fitting
fitting-fits tag_size fixed_size elem_size count some_count h =
    let room : (0 < elem_size) × (fixed_size < tag_size) = (ground arith, ground arith) in
    let low : count ≤ (tag_size - fixed_size) / elem_size = ground arith in
    let all = (le-div_iff_mul-le room.0).0 low in omega (arith, room, all)

-- On a tag whose declared size can be read, the accessor returns the address past the fixed part and
-- a count that is at most the claimed one, and the elements up to the count lie within the declared
-- size.
pub tag_array-fits :
    (m : Memory) (tag fixed_size elem_size claimed tag_size : ℕ)
    → Tag.tag_size m tag ≡ some tag_size
    → (count : ℕ) × (tag_array m tag fixed_size elem_size claimed ≡ some (tag + fixed_size, count))
      × (count ≤ claimed)
      × ((i : ℕ) → i < count → fixed_size + (i + 1) * elem_size ≤ tag_size)
unfolding tag_array
tag_array-fits m tag fixed_size elem_size claimed tag_size sized = (
  (if ltb claimed (fitting tag_size fixed_size elem_size)
      then claimed
      else fitting tag_size fixed_size elem_size),
  rw sized refl,
  ground arith,
  λ i h. fitting-fits tag_size fixed_size elem_size (i + 1) (omega arith) (ground arith),
)
