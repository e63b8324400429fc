-- ===== src/Machine/Vmm.antt =====
-- arch/x86_64/vmm.c: the kernel heap, whose pages are mapped on their first access. The interrupts by which
-- other processors drop a page from their translation caches are a list of addresses in the state; the
-- bytes of a page are the words of `tables`. `none` is a panic.
pub mod Demand
pub mod Free
mod Tests
use ggmk.Base.{
  ℕ, zero, suc, ◌+◌, ◌-◌, ◌*◌, ◌/◌, ◌%◌, ◌^◌, ◌==◌, ◌||◌, Bool, Option, none, some, List, [], ◌∷◌,
  ◌++◌, ltb, leb, if◌then◌else◌, ◌>>=◌, bit_and,
}
use ggmk.Rc.{Rc, ok, fail}
use ggmk.Machine.Pmm.{alloc_pages, free_pages_at}
use ggmk.Machine.Paging.{Paging, frame, map, unmap}

-- `VMM_HEAP_BASE`, `VMM_HEAP_END`
abbrev pub vmm_heap_base : ℕ
vmm_heap_base = 0xffff_ffff_8800_0000

abbrev pub vmm_heap_end : ℕ
vmm_heap_end = 0xffff_ffff_9000_0000

-- the static variables, with what the functions reach
pub record Vmm : Type 0 where
  pub heap_next : ℕ
  pub total_cpus : ℕ
  pub paging : Paging
  pub shootdowns : List ℕ

-- `vmm_init`
abbrev pub vmm_init : Paging → Vmm
vmm_init paging = record {
  heap_next = vmm_heap_base;
  total_cpus = 1;
  paging = paging;
  shootdowns = [];
}

-- `vmm_set_cpu_count`
abbrev pub vmm_set_cpu_count : Vmm → ℕ → Vmm
vmm_set_cpu_count s count = record s { total_cpus = count }

-- `vmm_tlb_shootdown`
unfoldable pub tlb_shootdown : Vmm → ℕ → Vmm
tlb_shootdown s virt =
    if leb s.total_cpus 1 then s else record s { shootdowns = s.shootdowns ++ virt ∷ [] }

-- the loop of `vmm_map` over `n` pages
pub map_pages : ℕ → Paging → ℕ → ℕ → ℕ → Option Paging
unfolding map
map_pages zero paging virt phys flags = some paging
map_pages (suc n) paging virt phys flags =
    let next =
      λ (p : Paging). map_pages n p ((virt + 4096) % 2 ^ 64) ((phys + 4096) % 2 ^ 64) flags in
    map paging virt phys flags >>= next

-- `vmm_map`: the address, 0 for the size 0
unfoldable pub vmm_map : Vmm → ℕ → ℕ → ℕ → Option (ℕ × Vmm)
unfolding map_pages
vmm_map s phys size flags =
    let pages = (size + 0xfff) % 2 ^ 64 / 4096 in
    let virt = frame ((s.heap_next + 0xfff) % 2 ^ 64) in
    let heap_next = (virt + pages * 4096) % 2 ^ 64 in
    let mapped = map_pages pages s.paging virt (frame phys) flags >>= λ paging.
    some
      ((virt + bit_and phys 0xfff) % 2 ^ 64, record s { heap_next = heap_next; paging = paging }) in
    if size == 0 then some (0, s) else if ltb vmm_heap_end heap_next then none else mapped

-- a page taken out of the tables
abbrev pub with_unmapped : Vmm → ℕ → ℕ × Vmm
with_unmapped s virt =
    let (phys, paging) = unmap s.paging virt in (phys, record s { paging = paging })

-- the physical page given back
unfoldable pub give_page : Vmm → ℕ → Option Vmm
unfolding free_pages_at
give_page s phys = free_pages_at s.paging.pmm phys 1 >>= λ pmm.
    some (record s { paging = record s.paging { pmm = pmm } })

-- the loop of `vmm_unmap` over `n` pages
unfoldable pub unmap_pages : ℕ → Vmm → ℕ → Option Vmm
unfolding give_page tlb_shootdown unmap
unmap_pages zero s virt = some s
unmap_pages (suc n) s virt =
    let next = λ (s' : Vmm). unmap_pages n (tlb_shootdown s' virt) (virt + 4096) in
    let r = with_unmapped s virt in (if r.0 == 0 then some r.1 else give_page r.1 r.0) >>= next

-- `vmm_unmap`
unfoldable pub vmm_unmap : Vmm → ℕ → ℕ → Option Vmm
unfolding unmap_pages
vmm_unmap s virt size =
    let pages = (virt + size + 2 ^ 64 - frame virt + 0xfff) % 2 ^ 64 / 4096 in
    if virt == 0 || size == 0 then some s else unmap_pages pages s (frame virt)

-- `kmalloc`: the address, 0 for the size 0
unfoldable pub kmalloc : Vmm → ℕ → Option (ℕ × Vmm)
kmalloc s size =
    let rounded = bit_and ((size + 15) % 2 ^ 64) (2 ^ 64 - 16) in
    let addr = bit_and ((s.heap_next + 15) % 2 ^ 64) (2 ^ 64 - 16) in
    let heap_next = (addr + rounded) % 2 ^ 64 in
    if size == 0
    then some (0, s)
    else if ltb vmm_heap_end heap_next
    then none
    else some (addr, record s { heap_next = heap_next })

-- the loop of `kfree` over `n` pages
unfoldable pub kfree_pages : ℕ → Vmm → ℕ → Option Vmm
unfolding give_page tlb_shootdown unmap
kfree_pages zero s page = some s
kfree_pages (suc n) s page =
    let next = λ (s' : Vmm). kfree_pages n s' (page + 4096) in
    let r = with_unmapped s page in
    let given = give_page r.1 r.0 >>= λ s'. next (tlb_shootdown s' page) in
    if r.0 == 0 then next r.1 else given

-- `kfree`
unfoldable pub kfree : Vmm → ℕ → ℕ → Option Vmm
unfolding kfree_pages
kfree s addr size =
    let end = frame ((addr + size + 0xfff) % 2 ^ 64) in
    if addr == 0 || size == 0
    then some s
    else kfree_pages ((end - frame addr) / 4096) s (frame addr)

-- the physical page at `phys` with its bytes set to 0
unfoldable pub zero_page : Paging → ℕ → Paging
zero_page s phys = record s { tables = λ t i. if t == phys then 0 else s.tables t i }

-- the page at `phys` zeroed and mapped
abbrev pub map_zeroed : Vmm → ℕ → Paging → ℕ → Option (Rc × Vmm)
map_zeroed s fault_addr paging phys =
    map (zero_page paging phys) (frame fault_addr) phys 3 >>= λ paging'.
    some (ok, record s { paging = paging' })

-- `vmm_demand_page`
unfoldable pub demand_page : Vmm → ℕ → Option (Rc × Vmm)
unfolding map zero_page
demand_page s fault_addr =
    let handled = alloc_pages s.paging.pmm 1 >>= λ r.
    (if r.0 == 0 then none else map_zeroed s fault_addr (record s.paging { pmm = r.1 }) r.0) in
    if ltb fault_addr vmm_heap_base || leb vmm_heap_end fault_addr
    then some (fail 1, s)
    else handled

-- `vmm_get_heap_used`
abbrev pub heap_used : Vmm → ℕ
heap_used s = (s.heap_next + 2 ^ 64 - vmm_heap_base) % 2 ^ 64
