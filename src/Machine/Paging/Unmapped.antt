-- ===== src/Machine/Paging/Unmapped.antt =====
-- `paging_unmap` of arch/x86_64/paging.c, and then `paging_walk`.
use ggmk.Base.{ℕ, ◌≡◌, ◌∙◌, refl, ap, sym, Bool, true, arith, Bool-cases, inl, inr}
use ggmk.Machine.Paging.{Paging, is_present, is_huge, frame, index, walk, unmap}
use ggmk.Machine.Paging.Ranks.{Ranked}
use ggmk.Machine.Paging.Mapped.{Leads, written, written-Grown, read_written}

module _ (s : Paging) (u : ℕ → Bool) (rank : ℕ → ℕ) (v : Ranked s u rank) (virt : ℕ) where
  -- the entries on the way to the page
  abbrev pml4e : ℕ
  pml4e = s.tables (frame s.cr3) (index virt 39)

  abbrev pdpe : ℕ
  pdpe = s.tables (frame pml4e) (index virt 30)

  abbrev pde : ℕ
  pde = s.tables (frame pdpe) (index virt 21)

  abbrev pte : ℕ
  pte = s.tables (frame pde) (index virt 12)

  path : (walk s virt).0 ≡ 4 → (is_present pml4e ≡ true) × Leads pdpe × Leads pde
  unfolding walk
  path ends = elim (Bool-cases (is_present pml4e)) [
    | inr out ↦ absurd (let f : 1 ≡ 4 = rw (walk, out) at ends in omega arith)
    | inl p4 ↦ elim (Bool-cases (is_present pdpe)) [
      | inr out ↦ absurd (let f : 2 ≡ 4 = rw (walk, p4, out) at ends in omega arith)
      | inl p3 ↦ elim (Bool-cases (is_huge pdpe)) [
        | inl large ↦ absurd (let f : 2 ≡ 4 = rw (walk, p4, p3, large) at ends in omega arith)
        | inr f3 ↦ elim (Bool-cases (is_present pde)) [
          | inr out ↦ absurd (let f : 3 ≡ 4 = rw (walk, p4, p3, f3, out) at ends in omega arith)
          | inl p2 ↦ elim (Bool-cases (is_huge pde)) [
            | inl large ↦
                absurd (let f : 3 ≡ 4 = rw (walk, p4, p3, f3, p2, large) at ends in omega arith)
            | inr f2 ↦ (p4, (p3, f3), (p2, f2))
          ]
        ]
      ]
    ]
  ]

  pub unmap-walk :
      (walk s virt).0 ≡ 4
      → is_present (walk s virt).4 ≡ true
      → (s' : Paging) × (unmap s virt ≡ (frame (walk s virt).4, s'))
        × (walk s' virt ≡ (4, (walk s virt).1, (walk s virt).2, (walk s virt).3, 0))
        × ((u' : ℕ → Bool) × (rank' : ℕ → ℕ) × Ranked s' u' rank')
  unfolding walk unmap
  unmap-walk ends present =
      let (p4, (p3, f3), (p2, f2)) = path ends in
      let r3 =
        v.below (frame s.cr3) (index virt 39) 2 v.root p4
          (v.top (frame s.cr3) (index virt 39) v.root) in
      let r2 = v.below (frame pml4e) (index virt 30) 1 r3 p3 f3 in
      let r1 = v.below (frame pdpe) (index virt 21) 0 r2 p2 f2 in
      let s' = written s u rank v (frame pde) (index virt 12) 0 r1 in
      let g = written-Grown s u rank v (frame pde) (index virt 12) 0 r1 in
      let e4 : s'.tables (frame s.cr3) (index virt 39) ≡ pml4e =
        g.same (frame s.cr3) (index virt 39) (omega (arith, v.root)) in
      let e3 : s'.tables (frame pml4e) (index virt 30) ≡ pdpe =
        g.same (frame pml4e) (index virt 30) (omega (arith, r3)) in
      let e2 : s'.tables (frame pdpe) (index virt 21) ≡ pde =
        g.same (frame pdpe) (index virt 21) (omega (arith, r2)) in
      let e1 : s'.tables (frame pde) (index virt 12) ≡ 0 =
        read_written s u rank v (frame pde) (index virt 12) 0 r1 in
      let whole : walk s virt ≡ (4, pml4e, pdpe, pde, pte) = rw (walk, p4, p3, f3, p2, f2) refl in
      let mapped : is_present pte ≡ true =
        ap (λ (w : ℕ × ℕ × ℕ × ℕ × ℕ). is_present w.4) (sym whole) ∙ present in
      (
        s',
        rw whole (rw (unmap, p4, p3, f3, p2, f2, mapped) refl),
        rw whole (rw (walk, e4, p4, e3, p3, f3, e2, p2, f2, e1) refl),
        (g.use_of, g.rank_of, g.ranked),
      )
