-- ===== src/Machine/Paging/Mmio.antt =====
-- `map_mmio` of arch/x86_64/paging.c. `hhdm` is the offset at which the boot loader has mapped all memory.
use ggmk.Base.{ℕ, zero, suc, ◌+◌, ◌-◌, ◌/◌, ◌%◌, ◌^◌, Option, some, ◌>>=◌}
use ggmk.Machine.Paging.{Paging, frame, map}

-- `phys_to_virt`
abbrev pub phys_to_virt : ℕ → ℕ → ℕ
phys_to_virt hhdm phys = (phys + hhdm) % 2 ^ 64

-- the loop over `n` pages from `addr` on
pub map_mmio_pages : ℕ → Paging → ℕ → ℕ → Option Paging
unfolding map
map_mmio_pages zero s hhdm addr = some s
map_mmio_pages (suc n) s hhdm addr =
    let next = λ (s' : Paging). map_mmio_pages n s' hhdm (addr + 4096) in
    map s (phys_to_virt hhdm addr) addr 0x1b >>= next

-- `map_mmio`
unfoldable pub map_mmio : Paging → ℕ → ℕ → ℕ → Option Paging
unfolding map_mmio_pages
map_mmio s hhdm phys size =
    let end = frame ((phys + size + 0xfff) % 2 ^ 64) in
    map_mmio_pages ((end - frame phys) / 4096) s hhdm (frame phys)
