-- ===== src/Machine/BootAlloc/Tests.antt =====
-- Requests to arch/x86_64/boot_alloc.c, with an area of 64 bytes at address 4096.
use ggmk.Base.{ℕ, ◌≡◌, refl}
use ggmk.Machine.BootAlloc.{BootAlloc, boot_alloc_init, boot_aligned_alloc, boot_calloc}

abbrev area : BootAlloc
area = boot_alloc_init (λ a. 255) 4096 64

-- ten bytes, and then an object of 16 bytes behind them
abbrev second : ℕ × BootAlloc
second = boot_aligned_alloc (boot_aligned_alloc area 8 10).1 16 16

second_example :
    (second.0 ≡ 4112)
    × (second.1.ba_offset ≡ 32)
    × (second.1.bytes 4112 ≡ 0)
    × (second.1.bytes 4111 ≡ 255)
unfolding boot_aligned_alloc
second_example = (refl, refl, refl, refl)

-- no room for 65 bytes
full_example : (boot_aligned_alloc area 8 65).0 ≡ 0
unfolding boot_aligned_alloc
full_example = refl

-- 2 ^ 61 + 1 objects of 8 bytes are given 8 bytes
calloc_wraps :
    ((boot_calloc area 0x2000_0000_0000_0001 8).0 ≡ 4096)
    × ((boot_calloc area 0x2000_0000_0000_0001 8).1.ba_offset ≡ 8)
unfolding boot_aligned_alloc
calloc_wraps = (refl, refl)
