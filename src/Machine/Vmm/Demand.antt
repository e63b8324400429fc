-- ===== src/Machine/Vmm/Demand.antt =====
-- `vmm_demand_page` of arch/x86_64/vmm.c, and then `paging_walk` of the faulting page.
use ggmk.Base.{ℕ, ◌*◌, ◌<◌, ◌≡◌, Bool, true, false}
use ggmk.Machine.Pmm.{Pmm}
use ggmk.Machine.Paging.{Paging}
use ggmk.Machine.Paging.Ranks.{Ranked}
use ggmk.Machine.Vmm.{Vmm}

-- What a fault takes: a page that was free, which is then in use and is none of the tables, while every page in
-- use before stays in use.
abbrev pub Takes : Paging → (ℕ → Bool) → ℕ → Paging → Type 0
Takes s u k s' =
    (k < s.pmm.total_pages)
    × (s'.pmm.total_pages ≡ s.pmm.total_pages)
    × (u k ≡ false)
    × ((u' : ℕ → Bool) × (rank' : ℕ → ℕ) × Ranked s' u' rank'
        × (u' k ≡ true)
        × (rank' (k * 4096) ≡ 0)
        × ((j : ℕ) → u j ≡ true → u' j ≡ true))
