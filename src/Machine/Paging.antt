-- ===== src/Machine/Paging.antt =====
-- arch/x86_64/paging.c: the page tables of four levels. A table is found by its physical address, as
-- `phys_to_virt` does, and CR3 is a part of the state; the translation cache is left out. `none` is a panic
-- for want of memory.
pub mod Entries
pub mod Ranks
pub mod Mapped
pub mod Unmapped
pub mod Mmio
pub mod Tests
use ggmk.Base.{
  ℕ, ◌+◌, ◌-◌, ◌*◌, ◌/◌, ◌%◌, ◌^◌, ◌==◌, ◌&&◌, Bool, true, false, not, Option, none, some,
  if◌then◌else◌, ◌>>=◌, bit_and, bit_or,
}
use ggmk.Machine.Pmm.{Pmm, alloc_pages}

-- the entries of a table by its physical address
abbrev pub Tables : Type 0
Tables = ℕ → ℕ → ℕ

pub record Paging : Type 0 where
  pub cr3 : ℕ
  pub tables : Tables
  pub pmm : Pmm

-- the tests of `PTE_PRESENT` and of `PTE_PS`
abbrev pub is_present : ℕ → Bool
is_present e = not (bit_and e 1 == 0)

abbrev pub is_huge : ℕ → Bool
is_huge e = not (bit_and e 0x80 == 0)

-- `e & ~0xFFF`
abbrev pub frame : ℕ → ℕ
frame e = bit_and e (2 ^ 64 - 4096)

-- the index of an address in a table
abbrev pub index : ℕ → ℕ → ℕ
index virt shift = bit_and (virt / 2 ^ shift) 0x1ff

-- an entry written
abbrev pub with_entry : Tables → ℕ → ℕ → ℕ → Tables
with_entry tables table idx e t i = if t == table && i == idx then e else tables t i

-- `paging_alloc_table`
unfoldable pub alloc_table : Paging → Option (ℕ × Paging)
alloc_table s = alloc_pages s.pmm 1 >>= λ r.
    (if r.0 == 0
      then none
      else some (r.0, record s { tables = λ t i. if t == r.0 then 0 else s.tables t i; pmm = r.1 }))

-- the table below an entry made, if there is none
unfoldable pub ensure : Paging → ℕ → ℕ → Option Paging
unfolding alloc_table
ensure s table idx =
    let made = alloc_table s >>= λ r.
    some (record r.1 { tables = with_entry r.1.tables table idx (bit_or (bit_or r.0 1) 2) }) in
    if is_present (s.tables table idx) then some s else made

-- the entry of the last table
abbrev pub set_page : Paging → ℕ → ℕ → ℕ → ℕ → Paging
set_page s pt virt phys flags = record s {
  tables = with_entry s.tables pt (index virt 12) (bit_or (frame phys) flags);
}

-- from the third table on
unfoldable pub map_pd : Paging → ℕ → ℕ → ℕ → ℕ → Option Paging
unfolding ensure
map_pd s pd virt phys flags =
    let e = s.tables pd (index virt 21) in
    let below = ensure s pd (index virt 21) >>= λ s'.
    some (set_page s' (frame (s'.tables pd (index virt 21))) virt phys flags) in
    if is_present e && is_huge e then some s else below

-- from the second table on
unfoldable pub map_pdp : Paging → ℕ → ℕ → ℕ → ℕ → Option Paging
unfolding ensure map_pd
map_pdp s pdp virt phys flags =
    let e = s.tables pdp (index virt 30) in
    let below = ensure s pdp (index virt 30) >>= λ s'.
    map_pd s' (frame (s'.tables pdp (index virt 30))) virt phys flags in
    if is_present e && is_huge e then some s else below

-- `paging_map`
unfoldable pub map : Paging → ℕ → ℕ → ℕ → Option Paging
unfolding ensure map_pdp
map s virt phys flags =
    let pml4 = frame s.cr3 in
    ensure s pml4 (index virt 39) >>= λ s'.
    map_pdp s' (frame (s'.tables pml4 (index virt 39))) virt phys flags

-- `paging_walk`: the level where it ends, and the entries that it has read
unfoldable pub walk : Paging → ℕ → ℕ × ℕ × ℕ × ℕ × ℕ
walk s virt =
    let pml4e = s.tables (frame s.cr3) (index virt 39) in
    let pdpe = s.tables (frame pml4e) (index virt 30) in
    let pde = s.tables (frame pdpe) (index virt 21) in
    let pte = s.tables (frame pde) (index virt 12) in
    if not (is_present pml4e)
    then (1, pml4e, 0, 0, 0)
    else if not (is_present pdpe)
    then (2, pml4e, pdpe, 0, 0)
    else if is_huge pdpe
    then (2, pml4e, pdpe, 0, 0)
    else if not (is_present pde)
    then (3, pml4e, pdpe, pde, 0)
    else if is_huge pde
    then (3, pml4e, pdpe, pde, 0)
    else (4, pml4e, pdpe, pde, pte)

-- `paging_unmap`: the address of the page, 0 if none was mapped
unfoldable pub unmap : Paging → ℕ → ℕ × Paging
unmap s virt =
    let pml4e = s.tables (frame s.cr3) (index virt 39) in
    let pdpe = s.tables (frame pml4e) (index virt 30) in
    let pde = s.tables (frame pdpe) (index virt 21) in
    let pte = s.tables (frame pde) (index virt 12) in
    if not (is_present pml4e)
    then (0, s)
    else if not (is_present pdpe)
    then (0, s)
    else if is_huge pdpe
    then (0, s)
    else if not (is_present pde)
    then (0, s)
    else if is_huge pde
    then (0, s)
    else if not (is_present pte)
    then (0, s)
    else (frame pte, record s { tables = with_entry s.tables (frame pde) (index virt 12) 0 })
