-- ===== src/Machine/Vmm/Free.antt =====
-- `kfree` of arch/x86_64/vmm.c, and then `paging_walk` of the other addresses on the page.
use ggmk.Base.{
  ℕ, ◌+◌, ◌-◌, ◌/◌, ◌%◌, ◌^◌, ◌<◌, ◌≤◌, ◌≡◌, ◌≢◌, ◌∙◌, refl, ap, sym, Bool, true, false, some,
  arith, ◌==◌, ◌||◌,
}
use ggmk.Machine.Pmm.Balance.{free_pages_lem}
use ggmk.Machine.Paging.{Paging, frame, walk, is_present}
use ggmk.Machine.Paging.Entries.{frame_lem}
use ggmk.Machine.Paging.Ranks.{Ranked}
use ggmk.Machine.Paging.Unmapped.{unmap-walk}
use ggmk.Machine.Vmm.{Vmm, give_page, tlb_shootdown, kfree_pages, kfree}

-- The entries of an address are those of its page.
walk-page : (s : Paging) (virt virt' : ℕ) → virt / 4096 ≡ virt' / 4096 → walk s virt ≡ walk s virt'
unfolding walk
walk-page s virt virt' same =
    let i12 : virt / 2 ^ 12 ≡ virt' / 2 ^ 12 = omega arith in
    let i21 : virt / 2 ^ 21 ≡ virt' / 2 ^ 21 = omega arith in
    let i30 : virt / 2 ^ 30 ≡ virt' / 2 ^ 30 = omega arith in
    let i39 : virt / 2 ^ 39 ≡ virt' / 2 ^ 39 = omega arith in rw (i39, i30, i21, i12) refl

tlb_shootdown-paging : (s : Vmm) (virt : ℕ) → (tlb_shootdown s virt).paging ≡ s.paging
unfolding tlb_shootdown
tlb_shootdown-paging s virt = ground arith

-- one page of the loop
module _ (s : Vmm) (u : ℕ → Bool) (rank : ℕ → ℕ) (v : Ranked s.paging u rank) (page : ℕ)
    (ends : (walk s.paging page).0 ≡ 4) (present : is_present (walk s.paging page).4 ≡ true)
    (there : frame (walk s.paging page).4 ≢ 0) where
  kfree_one :
      (s' : Vmm) × (kfree_pages 1 s page ≡ some s')
      × (walk s'.paging page
          ≡ (4, (walk s.paging page).1, (walk s.paging page).2, (walk s.paging page).3, 0))
  unfolding kfree_pages give_page walk
  kfree_one =
      let (p, taken, walked, (u', rank', v')) = unmap-walk s.paging u rank v page ends present in
      let (pmm, given, balanced, same) =
        free_pages_lem p.pmm u' v'.balanced (frame (walk s.paging page).4) 1 in
      let some_page : (frame (walk s.paging page).4 == 0) ≡ false = ground arith in
      let left : Vmm = record s { paging = record p { pmm = pmm } } in
      (
        tlb_shootdown left page,
        rw (taken, some_page, give_page, given) refl,
        rw (tlb_shootdown-paging left page) walked,
      )

-- the number of pages that an object within a page touches
one_page :
    (addr size : ℕ)
    → 0 < size
    → addr % 4096 + size ≤ 4096
    → addr + size + 4095 < 2 ^ 64
    → (frame ((addr + size + 0xfff) % 2 ^ 64) - frame addr) / 4096 ≡ 1
one_page addr size some_bytes within small =
    let e : (addr + size + 0xfff) % 2 ^ 64 ≡ addr + size + 0xfff = omega arith in
    rw e
      (omega (arith, frame_lem addr (omega arith), frame_lem (addr + size + 0xfff) (omega arith)))

-- Where the page tables form a tree of four levels whose pages are in use and no entry of the first level is of
-- a huge page, kfree of an object that lies within one page of 4 KB, mapped at the fourth level to a page
-- other than page 0, takes the whole page out of the tables: a walk of every address on it then finds 0 at
-- the fourth level.
pub kfree-walk :
    (s : Vmm) (u : ℕ → Bool) (rank : ℕ → ℕ)
    → Ranked s.paging u rank
    → (addr size : ℕ) → 0 < addr
    → 0 < size
    → addr % 4096 + size ≤ 4096
    → addr + size + 4095 < 2 ^ 64
    → (walk s.paging addr).0 ≡ 4
    → is_present (walk s.paging addr).4 ≡ true
    → frame (walk s.paging addr).4 ≢ 0
    → (s' : Vmm) × (kfree s addr size ≡ some s')
      × ((virt : ℕ)
          → virt / 4096 ≡ addr / 4096
          → walk s'.paging virt
            ≡ (4, (walk s.paging addr).1, (walk s.paging addr).2, (walk s.paging addr).3, 0))
unfolding kfree
kfree-walk s u rank v addr size pos some_bytes within small ends present there =
    let base : frame addr / 4096 ≡ addr / 4096 = omega (arith, frame_lem addr (omega arith)) in
    let e : walk s.paging (frame addr) ≡ walk s.paging addr =
      walk-page s.paging (frame addr) addr base in
    let (s', done, walked) =
      kfree_one s u rank v (frame addr) (ap (λ (w : ℕ × ℕ × ℕ × ℕ × ℕ). w.0) e ∙ ends)
        (ap (λ (w : ℕ × ℕ × ℕ × ℕ × ℕ). is_present w.4) e ∙ present)
        (λ z. there (sym (ap (λ (w : ℕ × ℕ × ℕ × ℕ × ℕ). frame w.4) e) ∙ z)) in
    let after = rw e at walked in
    let given : (addr == 0 || size == 0) ≡ false = ground arith in
    (
      s',
      rw (given, one_page addr size some_bytes within small) done,
      λ virt same. walk-page s'.paging virt (frame addr) (same ∙ sym base) ∙ after,
    )
