-- ===== src/Alloc/Bump.antt =====
-- src/alloc_bump.c: the bump allocator, run by one thread.
pub mod Regions
pub mod Overflow
use ggmk.Base.{
  ℕ, ◌+◌, ◌%◌, ◌==◌, Option, none, some, u32_mod, add32, sub32, ltb, if◌then◌else◌, bit_and,
}

-- `gmk_bump_t`
pub record Bump : Type 0 where
  pub base : ℕ
  pub size : ℕ
  pub offset : ℕ
  pub high_water : ℕ

-- `(size + 7u) & ~7u`
unfoldable pub align8 : ℕ → ℕ
align8 size = bit_and (add32 size 7) 0xffff_fff8

-- `gmk_bump_init`: the allocator, or `none` for -1.
unfoldable pub init : Option ℕ → ℕ → Option Bump
init none mem_size = none
init (some mem) mem_size =
    if mem_size == 0
    then none
    else some (record { base = mem; size = mem_size; offset = 0; high_water = 0 })

-- `gmk_bump_alloc` of a size that is aligned already
abbrev pub alloc_aligned : Bump → ℕ → Option ℕ × Bump
alloc_aligned b size =
    let off = b.offset in
    let taken = record b { offset = add32 off size } in
    if ltb (b.size % u32_mod) (add32 off size)
    then (none, record taken { offset = sub32 taken.offset size })
    else (
      some (b.base + off),
      record taken {
        high_water = if ltb b.high_water (add32 off size) then add32 off size else b.high_water;
      },
    )

-- `gmk_bump_alloc`
unfoldable pub alloc : Bump → ℕ → Option ℕ × Bump
alloc b size = if size == 0 then (none, b) else alloc_aligned b (align8 size)

-- `gmk_bump_reset`
unfoldable pub reset : Bump → Bump
reset b = record b { offset = 0 }

-- `gmk_bump_used`
unfoldable pub used : Bump → ℕ
used b = b.offset
