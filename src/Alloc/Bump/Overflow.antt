-- ===== src/Alloc/Bump/Overflow.antt =====
-- The test of src/alloc_bump.c on a sum that wraps.
use ggmk.Base.{
  ℕ, ◌+◌, ◌-◌, ◌%◌, ◌≤◌, ◌<◌, ◌≡◌, refl, some, arith, u32_mod, add32, le→ltb, ◌==◌, false,
}
use ggmk.Alloc.Bump.{Bump, align8, alloc}
use ggmk.Alloc.Bump.Regions.{IsValid, align8_bounds}

-- A size whose sum with the offset wraps to within the memory is handed out, though the memory ends
-- before it, and the offset falls, so that what was handed out before is handed out again.
pub bump_alloc-wraps :
    (b : Bump) (size : ℕ)
    → IsValid b
    → size + 7 < u32_mod
    → u32_mod ≤ b.offset + align8 size
    → b.offset + align8 size ≤ u32_mod + b.size
    → ((alloc b size).0 ≡ some (b.base + b.offset))
      × (b.size < b.offset + size + 8)
      × ((alloc b size).1.offset < b.offset)
unfolding alloc
bump_alloc-wraps b size v word over under =
    let (above, below, multiple) = align8_bounds size word in
    let some_size : (size == 0) ≡ false = ground (arith, v.within, v.small) in
    let sum : add32 b.offset (align8 size) ≡ b.offset + align8 size - u32_mod =
      omega (arith, v.within, v.small) in
    let whole : b.size % u32_mod ≡ b.size = omega (arith, v.small) in
    rw (some_size, whole, sum, le→ltb b.size (b.offset + align8 size - u32_mod) (omega arith))
      (refl, omega (arith, v.small), omega (arith, v.small))
