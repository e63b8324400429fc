-- ===== src/Machine/Paging/Ranks.antt =====
-- Page tables of arch/x86_64/paging.c form a tree: a table of rank 4, and below the entries of a table
-- tables of the next rank.
use ggmk.Base.{
  ℕ, zero, suc, ◌+◌, ◌*◌, ◌/◌, ◌<◌, ◌≤◌, ◌≡◌, ◌≢◌, ◌∙◌, ◌⊎◌, refl, ap, sym, Bool, true, false, ◌&&◌,
  Option, some, none, arith, ◌==◌, if◌then◌else◌, Bool-cases, inl, inr,
}
use ggmk.Machine.Pmm.{Pmm, alloc_pages}
use ggmk.Machine.Pmm.Search.{First}
use ggmk.Machine.Pmm.Counts.{free_count, filled, free_count-filled}
use ggmk.Machine.Pmm.Balance.{IsBalanced, address, taken, alloc_pages_lem}
use ggmk.Machine.Paging.{Paging, is_present, is_huge, frame, with_entry, alloc_table, ensure}
use ggmk.Machine.Paging.Entries.{
  table_entry, frame-table_entry, is_present-table_entry, is_huge-table_entry,
}

-- The tables are those of a rank other than 0, their pages are in use, and so is page 0.
pub record Ranked (s : Paging) (u : ℕ → Bool) (rank : ℕ → ℕ) : Type 0 where
  pub balanced : IsBalanced s.pmm u
  pub reserved : u 0 ≡ true
  pub root : rank (frame s.cr3) ≡ 4
  pub used : (t : ℕ) → rank t ≢ 0 → u (t / 4096) ≡ true
  pub top : (t i : ℕ) → rank t ≡ 4 → is_huge (s.tables t i) ≡ false
  pub below :
      (t i n : ℕ)
      → rank t ≡ suc (suc n)
      → is_present (s.tables t i) ≡ true
      → is_huge (s.tables t i) ≡ false
      → rank (frame (s.tables t i)) ≡ suc n

no_free : (n : ℕ) (u : ℕ → Bool) → ((j : ℕ) → j < n → u j ≡ true) → free_count n u ≡ 0
unfolding free_count
no_free zero u all = refl
no_free (suc n) u all = rw (all n (omega arith)) (no_free n u (λ j lt. all j (omega arith)))

-- a page for a table, which is not page 0
abbrev FreshPage : Pmm → (ℕ → Bool) → Type 0
FreshPage pmm u =
    (k : ℕ) × (pmm' : Pmm) × (alloc_pages pmm 1 ≡ some (k * 4096, pmm'))
    × (k ≢ 0)
    × (k < 1048576)
    × (u k ≡ false)
    × IsBalanced pmm' (filled u k 1 true)
    × (pmm'.free_pages + 1 ≡ pmm.free_pages)
    × (k < pmm.total_pages)
    × (pmm'.total_pages ≡ pmm.total_pages)

on_found :
    (pmm : Pmm) (u : ℕ → Bool)
    → IsBalanced pmm u
    → u 0 ≡ true
    → 0 < pmm.free_pages
    → (found : Option ℕ) (pmm' : Pmm) → First u 1 pmm.total_pages found
    → alloc_pages pmm 1 ≡ some (address found, pmm')
    → IsBalanced pmm' (taken u 1 found)
    → pmm'.total_pages ≡ pmm.total_pages
    → FreshPage pmm u
on_found pmm u h reserved some_page none pmm' first done h' same =
    let all : (j : ℕ) → j < pmm.total_pages → u j ≡ true = λ j lt.
      (let (i, below, used) = first j (omega arith) in
        let e : j + i ≡ j = omega arith in rw e at used) in
    absurd (omega (arith, h.counted, no_free pmm.total_pages u all))
on_found pmm u h reserved some_page (some k) pmm' (within, is_free, earliest) done h' same =
    let e : k + 0 ≡ k = omega arith in
    let free : u k ≡ false = rw e at (is_free 0 (omega arith)) in
    let count = free_count-filled pmm.total_pages u k 1 within is_free in
    (
      k,
      pmm',
      done,
      (λ zeroth. let f : true ≡ false = sym reserved ∙ ap u (sym zeroth) ∙ free in absurd (cc)),
      omega (arith, h.bounded),
      free,
      h',
      omega (
        arith,
        h.counted,
        h'.counted,
        count,
        ap (λ (n : ℕ). free_count n (filled u k 1 true)) same,
      ),
      omega arith,
      same,
    )

pub fresh_page :
    (pmm : Pmm) (u : ℕ → Bool)
    → IsBalanced pmm u
    → u 0 ≡ true
    → 0 < pmm.free_pages
    → FreshPage pmm u
fresh_page pmm u h reserved some_page =
    let (found, pmm', first, done, h', same, leaves) = alloc_pages_lem pmm u h 1 (omega arith) in
    on_found pmm u h reserved some_page found pmm' first done h' same

-- An entry that leads to a table of rank `n`, and what else the state has of the one before.
pub record Ensured (s : Paging) (u : ℕ → Bool) (rank : ℕ → ℕ) (table idx n : ℕ) (s' : Paging)
    : Type 0 where
  pub use_of : ℕ → Bool
  pub rank_of : ℕ → ℕ
  pub ranked : Ranked s' use_of rank_of
  pub cr3 : s'.cr3 ≡ s.cr3
  pub kept : (t : ℕ) → rank t ≢ 0 → rank_of t ≡ rank t
  pub same : (t i : ℕ) → rank t ≢ 0 → t ≢ table → s'.tables t i ≡ s.tables t i
  pub present : is_present (s'.tables table idx) ≡ true
  pub flat : is_huge (s'.tables table idx) ≡ false
  pub child : rank_of (frame (s'.tables table idx)) ≡ n
  pub cost : s.pmm.free_pages ≤ s'.pmm.free_pages + 1
  pub total : s'.pmm.total_pages ≡ s.pmm.total_pages
  pub keeps : (j : ℕ) → u j ≡ true → use_of j ≡ true
  pub fresh : (t : ℕ) → rank_of t ≢ 0 → rank t ≡ 0 → u (t / 4096) ≡ false

module _ (s : Paging) (u : ℕ → Bool) (rank : ℕ → ℕ) (v : Ranked s u rank) (table idx n : ℕ)
    (level : rank table ≡ suc (suc n)) where
  module _ (k : ℕ) (pmm : Pmm) (ne : k ≢ 0) (small : k < 1048576) (free : u k ≡ false)
      (h : IsBalanced pmm (filled u k 1 true)) where
    -- the state with the new table at page `k`
    abbrev grown : Paging
    grown = record s {
      tables =
          with_entry (λ t i. if t == k * 4096 then 0 else s.tables t i) table idx
            (table_entry (k * 4096));
      pmm = pmm;
    }

    abbrev new_rank : ℕ → ℕ
    new_rank t = if t == k * 4096 then suc n else rank t

    unranked : rank (k * 4096) ≡ 0
    unranked = elim (Bool-cases (rank (k * 4096) == 0)) [
      | inl none_yet ↦ ground arith
      | inr some_yet ↦
          let e : k * 4096 / 4096 ≡ k = omega arith in
          let f : true ≡ false = sym (v.used (k * 4096) (λ z. ground arith)) ∙ ap u e ∙ free in
          absurd (cc)
    ]

    kept_rank : (t : ℕ) → rank t ≢ 0 → new_rank t ≡ rank t
    kept_rank t ranked = elim (Bool-cases (t == k * 4096)) [
      | inl here ↦ let e : t ≡ k * 4096 = ground arith in absurd (ranked (ap rank e ∙ unranked))
      | inr other ↦ rw other refl
    ]

    fresh_rank : (t : ℕ) → new_rank t ≢ 0 → rank t ≡ 0 → u (t / 4096) ≡ false
    fresh_rank t ranked zeroth = elim (Bool-cases (t == k * 4096)) [
      | inl here ↦ let e : t / 4096 ≡ k = ground arith in ap u e ∙ free
      | inr other ↦ absurd (ranked (rw other zeroth))
    ]

    -- what an entry is after the growth
    read_grown :
        (t i : ℕ)
        → ((t ≡ table) × (i ≡ idx) × (grown.tables t i ≡ table_entry (k * 4096)))
          ⊎ (((t ≡ k * 4096) × (grown.tables t i ≡ 0))
              ⊎ ((t ≢ k * 4096) × (grown.tables t i ≡ s.tables t i)))
    read_grown t i = elim (Bool-cases (t == table && i == idx)) [
      | inl written ↦ inl (ground arith, ground arith, rw written refl)
      | inr other ↦ elim (Bool-cases (t == k * 4096)) [
        | inl new ↦ inr (inl (ground arith, rw (other, new) refl))
        | inr old ↦ inr (inr ((λ e. ground arith), rw (other, old) refl))
      ]
    ]

    new_entry : grown.tables table idx ≡ table_entry (k * 4096)
    new_entry =
        let self : (table == table) ≡ true = ground arith in
        let self' : (idx == idx) ≡ true = ground arith in rw (self, self') refl

    grown-Ranked : Ranked grown (filled u k 1 true) new_rank
    grown-Ranked = record {
      balanced = h;
      reserved = let e : filled u k 1 true 0 ≡ u 0 = ground arith in e ∙ v.reserved;
      root = kept_rank (frame s.cr3) (λ e. omega (arith, v.root)) ∙ v.root;
      used = λ t ranked. elim (Bool-cases (t == k * 4096)) [
        | inl here ↦ ground arith
        | inr other ↦ let old : u (t / 4096) ≡ true = v.used t (rw other at ranked) in ground arith
      ];
      top = λ t i four. elim (read_grown t i) [
        | inl (et, ei, e) ↦ rw e (is_huge-table_entry k)
        | inr (inl (et, e)) ↦ rw e refl
        | inr (inr (ne', e)) ↦
            rw e
              (v.top t i (let other : (t == k * 4096) ≡ false = ground arith in rw other at four))
      ];
      below = λ t i m deep present flat. elim (read_grown t i) [
        | inl (et, ei, e) ↦
            let self : new_rank (k * 4096) ≡ suc n = ground arith in
            let here : new_rank table ≡ suc (suc n) =
              kept_rank table (λ z. omega (arith, level)) ∙ level in
            let depth : suc n ≡ suc m = omega (arith, sym here ∙ ap new_rank (sym et) ∙ deep) in
            ap (λ (w : ℕ). new_rank (frame w)) e
            ∙ ap new_rank (frame-table_entry k (omega arith))
            ∙ self
            ∙ depth
        | inr (inl (et, e)) ↦ absurd (let f : false ≡ true = rw e at present in cc)
        | inr (inr (ne', e)) ↦
            let other : (t == k * 4096) ≡ false = ground arith in
            let child = v.below t i m (rw other at deep) (rw e at present) (rw e at flat) in
            ap (λ (w : ℕ). new_rank (frame w)) e
            ∙ kept_rank (frame (s.tables t i)) (λ z. omega (arith, child))
            ∙ child
      ];
    }

  -- An entry made to lead to a table.
  pub ensure_lem :
      (is_present (s.tables table idx) ≡ true → is_huge (s.tables table idx) ≡ false)
      → 0 < s.pmm.free_pages
      → (s' : Paging) × (ensure s table idx ≡ some s') × Ensured s u rank table idx (suc n) s'
  unfolding ensure alloc_table
  ensure_lem flat some_page = elim (Bool-cases (is_present (s.tables table idx))) [
    | inl there ↦
        rw (ensure, there)
          (
            s,
            refl,
            record {
              use_of = u;
              rank_of = rank;
              ranked = v;
              cr3 = refl;
              kept = λ t ranked. refl;
              same = λ t i ranked ne. refl;
              present = there;
              flat = flat there;
              child = v.below table idx n level there (flat there);
              cost = omega arith;
              total = refl;
              keeps = λ j used. used;
              fresh = λ t ranked zeroth. absurd (ranked zeroth);
            },
          )
    | inr missing ↦
        let (k, pmm, done, ne, small, free, h, fewer, within, total) =
          fresh_page s.pmm u v.balanced v.reserved some_page in
        let page : (k * 4096 == 0) ≡ false = ground arith in
        let entry = new_entry k pmm ne small free h in
        rw (ensure, missing, alloc_table, done, page)
          (
            grown k pmm ne small free h,
            refl,
            record {
              use_of = filled u k 1 true;
              rank_of = new_rank k pmm ne small free h;
              ranked = grown-Ranked k pmm ne small free h;
              cr3 = refl;
              kept = kept_rank k pmm ne small free h;
              same = λ t i ranked ne'. elim (read_grown k pmm ne small free h t i) [
                | inl (et, ei, e) ↦ absurd (ne' et)
                | inr (inl (et, e)) ↦ absurd (ranked (ap rank et ∙ unranked k pmm ne small free h))
                | inr (inr (other, e)) ↦ e
              ];
              present = rw entry (is_present-table_entry k);
              flat = rw entry (is_huge-table_entry k);
              child =
                  rw (entry, frame-table_entry k (omega arith))
                    (let self : new_rank k pmm ne small free h (k * 4096) ≡ suc n = ground arith in
                      self);
              cost = omega (arith, fewer);
              total = total;
              keeps = λ j used. ground arith;
              fresh = fresh_rank k pmm ne small free h;
            },
          )
  ]
