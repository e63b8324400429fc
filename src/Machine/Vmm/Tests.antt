-- ===== src/Machine/Vmm/Tests.antt =====
-- A fault of arch/x86_64/vmm.c in the first page of the kernel heap, with four pages free.
use ggmk.Base.{◌/◌, true, ℕ, ◌≡◌, refl, some, arith}
use ggmk.Machine.Paging.{Paging, walk}
use ggmk.Machine.Paging.Tests.{mapped, depth, mapped-Ranked, state}
use ggmk.Machine.Vmm.{Vmm, vmm_init, kmalloc, kfree}
use ggmk.Machine.Vmm.Free.{kfree-walk}

abbrev vmm : Vmm
vmm = vmm_init state

-- 20 bytes of the heap
kmalloc_example :
    kmalloc vmm 20 ≡ some (0xffff_ffff_8800_0000, record vmm { heap_next = 0xffff_ffff_8800_0020 })
unfolding kmalloc
kmalloc_example = refl

-- 16 bytes at 16 given back, with the bytes at 64 of the same page in use
kfree-walk_example :
    (s' : Vmm) × (kfree (vmm_init mapped) 16 16 ≡ some s')
    × ((virt : ℕ)
        → virt / 4096 ≡ 0
        → walk s'.paging virt ≡ (4, (walk mapped 16).1, (walk mapped 16).2, (walk mapped 16).3, 0))
unfolding walk
kfree-walk_example =
    kfree-walk (vmm_init mapped) (λ j. true) depth mapped-Ranked 16 16 (omega arith) (omega arith)
      (omega arith) (omega arith) refl refl (λ z. omega arith)
