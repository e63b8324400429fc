-- ===== src/Machine/Paging/Mapped.antt =====
-- `paging_map` of arch/x86_64/paging.c, and then `paging_walk`.
use mathlib.Core.Path.{subst}
use ggmk.Base.{
  ℕ, ◌/◌, ◌<◌, ◌≡◌, ◌≢◌, ◌∙◌, ◌⊎◌, refl, ap, sym, Bool, true, false, ◌&&◌, some, arith, ◌==◌,
  Bool-cases, inl, inr, bit_or,
}
use ggmk.Machine.Paging.{
  with_entry, Paging, is_present, is_huge, frame, index, map_pd, map_pdp, map, walk,
}
use ggmk.Machine.Paging.Ranks.{Ranked, Ensured, ensure_lem}

-- What the state has of the one before, in tables of a rank above `level`.
pub record Grown (s : Paging) (u : ℕ → Bool) (rank : ℕ → ℕ) (level : ℕ) (s' : Paging) : Type 0 where
  pub use_of : ℕ → Bool
  pub rank_of : ℕ → ℕ
  pub ranked : Ranked s' use_of rank_of
  pub cr3 : s'.cr3 ≡ s.cr3
  pub kept : (t : ℕ) → rank t ≢ 0 → rank_of t ≡ rank t
  pub same : (t i : ℕ) → level < rank t → s'.tables t i ≡ s.tables t i
  pub total : s'.pmm.total_pages ≡ s.pmm.total_pages
  pub keeps : (j : ℕ) → u j ≡ true → use_of j ≡ true
  pub fresh : (t : ℕ) → rank_of t ≢ 0 → rank t ≡ 0 → u (t / 4096) ≡ false

-- The entry is of a page larger than 4 KB.
abbrev pub IsLarge : ℕ → Type 0
IsLarge e = (is_present e ≡ true) × (is_huge e ≡ true)

-- The entry leads to a table.
abbrev pub Leads : ℕ → Type 0
Leads e = (is_present e ≡ true) × (is_huge e ≡ false)

-- an entry of a last table written
module _ (s : Paging) (u : ℕ → Bool) (rank : ℕ → ℕ) (v : Ranked s u rank) (pt idx e : ℕ)
    (last : rank pt ≡ 1) where
  abbrev pub written : Paging
  written = record s { tables = with_entry s.tables pt idx e }

  read_above : (t i : ℕ) → 1 < rank t → written.tables t i ≡ s.tables t i
  read_above t i above = elim (Bool-cases (t == pt)) [
    | inl here ↦ let e : t ≡ pt = ground arith in absurd (omega (arith, ap rank e, last, above))
    | inr other ↦ rw other refl
  ]

  pub written-Grown : Grown s u rank 1 written
  written-Grown = record {
    use_of = u;
    rank_of = rank;
    ranked = record {
      balanced = v.balanced;
      reserved = v.reserved;
      root = v.root;
      used = v.used;
      top = λ t i four. ap is_huge (read_above t i (omega (arith, four))) ∙ v.top t i four;
      below = λ t i n deep present flat.
          (let e = read_above t i (omega (arith, deep)) in
            ap (λ (w : ℕ). rank (frame w)) e
            ∙ v.below t i n deep (sym (ap is_present e) ∙ present) (sym (ap is_huge e) ∙ flat));
    };
    cr3 = refl;
    kept = λ t ranked. refl;
    same = read_above;
    total = refl;
    keeps = λ j used. used;
    fresh = λ t ranked zeroth. absurd (ranked zeroth);
  }

  pub read_written : written.tables pt idx ≡ e
  read_written =
      let self : (pt == pt) ≡ true = ground arith in
      let self' : (idx == idx) ≡ true = ground arith in rw (self, self') refl

module _ (virt phys flags : ℕ) where
  abbrev new_page : ℕ
  new_page = bit_or (frame phys) flags

  -- The address ends in the third table, or in the last with the page written.
  abbrev EndsPd : Paging → ℕ → Type 0
  EndsPd s pd =
      IsLarge (s.tables pd (index virt 21))
      ⊎ (Leads (s.tables pd (index virt 21))
          × (s.tables (frame (s.tables pd (index virt 21))) (index virt 12) ≡ new_page))

  -- The address ends in the second table, or below.
  abbrev EndsPdp : Paging → ℕ → Type 0
  EndsPdp s pdp =
      IsLarge (s.tables pdp (index virt 30))
      ⊎ (Leads (s.tables pdp (index virt 30)) × EndsPd s (frame (s.tables pdp (index virt 30))))

  module _ {s s1 s' : Paging} {u : ℕ → Bool} {rank : ℕ → ℕ} {table idx n low high : ℕ}
      (d : Ensured s u rank table idx n s1) (g : Grown s1 d.use_of d.rank_of low s')
      (level : rank table ≡ high) (above : low < high) where
    compose : Grown s u rank high s'
    compose = record {
      use_of = g.use_of;
      rank_of = g.rank_of;
      ranked = g.ranked;
      cr3 = g.cr3 ∙ d.cr3;
      kept = λ t ranked. g.kept t (λ z. ranked (sym (d.kept t ranked) ∙ z)) ∙ d.kept t ranked;
      same = λ t i higher.
          (let ranked : rank t ≢ 0 = λ z. absurd (omega (arith, z, higher)) in
            g.same t i (omega (arith, d.kept t ranked, higher))
            ∙ d.same t i ranked (λ e. absurd (omega (arith, ap rank e, level, higher))));
      total = g.total ∙ d.total;
      keeps = λ j used. g.keeps j (d.keeps j used);
      fresh = λ t ranked zeroth. elim (Bool-cases (u (t / 4096))) [
        | inr free ↦ free
        | inl used ↦
            let used' = d.keeps (t / 4096) used in
            elim (Bool-cases (d.rank_of t == 0)) [
              | inl not_yet ↦
                  let f : true ≡ false = sym used' ∙ g.fresh t ranked (ground arith) in absurd (cc)
              | inr by_then ↦ d.fresh t (λ e. ground arith) zeroth
            ]
      ];
    }

    entry_kept : s'.tables table idx ≡ s1.tables table idx
    entry_kept =
        g.same table idx
          (omega (arith, d.kept table (λ z. absurd (omega (arith, z, level, above))), level))

    entry-Leads : Leads (s'.tables table idx)
    entry-Leads = (ap is_present entry_kept ∙ d.present, ap is_huge entry_kept ∙ d.flat)

  unchanged :
      (s : Paging) (u : ℕ → Bool) (rank : ℕ → ℕ) (level : ℕ)
      → Ranked s u rank
      → Grown s u rank level s
  unchanged s u rank level v = record {
    use_of = u;
    rank_of = rank;
    ranked = v;
    cr3 = refl;
    kept = λ t ranked. refl;
    same = λ t i above. refl;
    total = refl;
    keeps = λ j used. used;
    fresh = λ t ranked zeroth. absurd (ranked zeroth);
  }

  map_pd_lem :
      (s : Paging) (u : ℕ → Bool) (rank : ℕ → ℕ) (pd : ℕ)
      → Ranked s u rank
      → rank pd ≡ 2
      → 0 < s.pmm.free_pages
      → (s' : Paging) × (map_pd s pd virt phys flags ≡ some s') × Grown s u rank 2 s' × EndsPd s' pd
  unfolding map_pd
  map_pd_lem s u rank pd v level some_page =
      elim (Bool-cases
        (is_present (s.tables pd (index virt 21)) && is_huge (s.tables pd (index virt 21)))) [
          | inl large ↦
              rw (map_pd, large) (s, refl, unchanged s u rank 2 v, inl (ground arith, ground arith))
          | inr small ↦
              let (s1, done, d) =
                ensure_lem s u rank v pd (index virt 21) 0 level (λ p. ground arith) some_page in
              let pt = frame (s1.tables pd (index virt 21)) in
              let g =
                written-Grown s1 d.use_of d.rank_of d.ranked pt (index virt 12) new_page d.child in
              let new =
                read_written s1 d.use_of d.rank_of d.ranked pt (index virt 12) new_page d.child in
              rw (map_pd, small, done)
                (
                  _,
                  refl,
                  compose d g level (omega arith),
                  inr (
                    entry-Leads d g level (omega arith),
                    rw (entry_kept d g level (omega arith)) new,
                  ),
                )
        ]

  map_pdp_lem :
      (s : Paging) (u : ℕ → Bool) (rank : ℕ → ℕ) (pdp : ℕ)
      → Ranked s u rank
      → rank pdp ≡ 3
      → 1 < s.pmm.free_pages
      → (s' : Paging) × (map_pdp s pdp virt phys flags ≡ some s')
        × Grown s u rank 3 s'
        × EndsPdp s' pdp
  unfolding map_pdp
  map_pdp_lem s u rank pdp v level two_pages =
      elim (Bool-cases
        (is_present (s.tables pdp (index virt 30)) && is_huge (s.tables pdp (index virt 30)))) [
          | inl large ↦
              rw (map_pdp, large)
                (s, refl, unchanged s u rank 3 v, inl (ground arith, ground arith))
          | inr small ↦
              let (s1, done, d) =
                ensure_lem s u rank v pdp (index virt 30) 1 level (λ p. ground arith)
                  (omega arith) in
              let (s', rest, g, ends) =
                map_pd_lem s1 d.use_of d.rank_of (frame (s1.tables pdp (index virt 30))) d.ranked
                  d.child (omega (arith, d.cost)) in
              rw (map_pdp, small, done)
                (
                  s',
                  rest,
                  compose d g level (omega arith),
                  inr (
                    entry-Leads d g level (omega arith),
                    subst (λ e. EndsPd s' (frame e)) (sym (entry_kept d g level (omega arith)))
                        ends,
                  ),
                )
        ]

  -- how a walk ends: at the page written, or in an entry of a larger page
  abbrev pub Walked : ℕ × ℕ × ℕ × ℕ × ℕ → Type 0
  Walked w =
      ((w.0 ≡ 4) × (w.4 ≡ bit_or (frame phys) flags))
      ⊎ (((w.0 ≡ 3) × IsLarge w.3) ⊎ ((w.0 ≡ 2) × IsLarge w.2))

  walk-Walked :
      (s : Paging)
      → Leads (s.tables (frame s.cr3) (index virt 39))
      → EndsPdp s (frame (s.tables (frame s.cr3) (index virt 39)))
      → Walked (walk s virt)
  unfolding walk
  walk-Walked s (p, f) (inl (p3, l3)) = rw (walk, p, p3, l3) (inr (inr (refl, (p3, l3))))
  walk-Walked s (p, f) (inr ((p3, f3), inl (p2, l2))) =
      rw (walk, p, p3, f3, p2, l2) (inr (inl (refl, (p2, l2))))
  walk-Walked s (p, f) (inr ((p3, f3), inr ((p2, f2), new))) =
      rw (walk, p, p3, f3, p2, f2) (inl (refl, new))

  -- What `paging_map` leaves, and `paging_walk` then.
  pub map-Grown :
      (s : Paging) (u : ℕ → Bool) (rank : ℕ → ℕ)
      → Ranked s u rank
      → 2 < s.pmm.free_pages
      → (s' : Paging) × (map s virt phys flags ≡ some s')
        × Grown s u rank 4 s'
        × Walked (walk s' virt)
  unfolding map
  map-Grown s u rank v three_pages =
      let pml4 = frame s.cr3 in
      let (s1, done, d) =
        ensure_lem s u rank v pml4 (index virt 39) 2 v.root (λ p. v.top pml4 (index virt 39) v.root)
          (omega arith) in
      let (s', rest, g, ends) =
        map_pdp_lem s1 d.use_of d.rank_of (frame (s1.tables pml4 (index virt 39))) d.ranked d.child
          (omega (arith, d.cost)) in
      let same = g.cr3 ∙ d.cr3 in
      let leads : Leads (s'.tables (frame s'.cr3) (index virt 39)) =
        rw same (entry-Leads d g v.root (omega arith)) in
      let below : EndsPdp s' (frame (s'.tables (frame s'.cr3) (index virt 39))) =
        rw same
          (subst (λ e. EndsPdp s' (frame e)) (sym (entry_kept d g v.root (omega arith))) ends) in
      rw (map, done) (s', rest, compose d g v.root (omega arith), walk-Walked s' leads below)
