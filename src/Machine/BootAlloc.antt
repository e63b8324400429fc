-- ===== src/Machine/BootAlloc.antt =====
-- arch/x86_64/boot_alloc.c: the allocator of the boot, over one area of memory. `boot_free` does nothing.
mod Tests
use ggmk.Base.{
  ℕ, ◌+◌, ◌-◌, ◌*◌, ◌^◌, ◌%◌, ◌==◌, ◌||◌, ◌&&◌, ltb, leb, if◌then◌else◌, bit_and, ◌≡◌, refl,
}

-- the static variables, with the bytes of the memory by their addresses
pub record BootAlloc : Type 0 where
  pub ba_base : ℕ
  pub ba_size : ℕ
  pub ba_offset : ℕ
  pub bytes : ℕ → ℕ

-- `boot_alloc_init`
abbrev pub boot_alloc_init : (ℕ → ℕ) → ℕ → ℕ → BootAlloc
boot_alloc_init bytes base size = record {
  ba_base = base;
  ba_size = size;
  ba_offset = 0;
  bytes = bytes;
}

-- the `size` bytes from `ptr` on set to 0
abbrev pub zeroed : (ℕ → ℕ) → ℕ → ℕ → ℕ → ℕ
zeroed bytes ptr size a = if leb ptr a && ltb a (ptr + size) then 0 else bytes a

-- `boot_aligned_alloc`: the address, 0 if the area has no room
unfoldable pub boot_aligned_alloc : BootAlloc → ℕ → ℕ → ℕ × BootAlloc
boot_aligned_alloc s alignment size =
    let mask = (2 ^ 64 - alignment) % 2 ^ 64 in
    let aligned = bit_and ((s.ba_offset + alignment + 2 ^ 64 - 1) % 2 ^ 64) mask in
    let ptr = (s.ba_base + aligned) % 2 ^ 64 in
    let s' = record s { ba_offset = (aligned + size) % 2 ^ 64; bytes = zeroed s.bytes ptr size } in
    if s.ba_base == 0 || size == 0
    then (0, s)
    else if ltb s.ba_size ((aligned + size) % 2 ^ 64)
    then (0, s)
    else (ptr, s')

-- `boot_calloc`
abbrev pub boot_calloc : BootAlloc → ℕ → ℕ → ℕ × BootAlloc
boot_calloc s count size = boot_aligned_alloc s 8 (count * size % 2 ^ 64)

-- `boot_alloc_used`
abbrev pub boot_alloc_used : BootAlloc → ℕ
boot_alloc_used s = s.ba_offset

-- `boot_alloc_total`
abbrev pub boot_alloc_total : BootAlloc → ℕ
boot_alloc_total s = s.ba_size
