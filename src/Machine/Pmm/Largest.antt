-- ===== src/Machine/Pmm/Largest.antt =====
-- `pmm_find_contiguous` of arch/x86_64/pmm.c finds a largest run of free pages.
use ggmk.Base.{
  ℕ, zero, suc, ◌+◌, ◌-◌, ◌*◌, ◌/◌, ◌%◌, ◌^◌, ◌<◌, ◌≤◌, ◌≡◌, ◌≢◌, ◌∙◌, ◌⊎◌, refl, ap, sym, Bool,
  true, false, Option, some, none, List, arith, ◌==◌, ltb, if◌then◌else◌, ◌>>=◌, Bool-cases, inl,
  inr, dec_le, dec_lt,
}
use ggmk.Machine.Pmm.{Pmm, pmm_page_size, bitmap_test}
use ggmk.Machine.Pmm.Pages.{Marks}

-- the best run so far, and the run that ends at the page
pub record Runs : Type 0 where
  pub best_start : ℕ
  pub best_len : ℕ
  pub run : ℕ
  pub start : ℕ

-- the run kept, if it is longer than the best
abbrev pub keep : Runs → Runs
keep r = if ltb r.best_len r.run then record r { best_start = r.start; best_len = r.run } else r

-- the loop of `pmm_find_contiguous`, from page `i` on
unfoldable pub scan_runs : List ℕ → ℕ → ℕ → Runs → Option Runs
unfolding bitmap_test
scan_runs bitmap zero i r = some r
scan_runs bitmap (suc left) i r =
    let next = λ (r : Runs). scan_runs bitmap left (suc i) r in
    bitmap_test bitmap i >>= λ used.
    (if used
      then next (record (keep r) { run = 0 })
      else next (record r { run = suc r.run; start = if r.run == 0 then i else r.start }))

-- `pmm_find_contiguous`: the address, 0 on failure, and the size that is stored then
unfoldable pub find_contiguous : Pmm → ℕ → Option (ℕ × Option ℕ)
unfolding scan_runs
find_contiguous s min_size =
    let min_pages = (min_size + pmm_page_size - 1) % 2 ^ 64 / pmm_page_size in
    scan_runs s.bitmap s.total_pages 0 (record { best_start = 0; best_len = 0; run = 0; start = 0 })
    >>= λ r. some (
        if ltb (keep r).best_len min_pages then (0, none) else (
          (keep r).best_start * pmm_page_size % 2 ^ 64,
          some ((keep r).best_len * pmm_page_size % 2 ^ 64),
        ))

module _ (u : ℕ → Bool) where
  -- `len` pages from `s` on are free
  abbrev pub AllFree : ℕ → ℕ → Type 0
  AllFree s len = (j : ℕ) → j < len → u (s + j) ≡ false

  -- the state of the search at page `i`
  record Scanned (i : ℕ) (r : Runs) : Type 0 where
    gap : ℕ
    place : i ≡ gap + r.run
    free : AllFree gap r.run
    begun : r.run ≢ 0 → r.start ≡ gap
    wall : (gap ≡ 0) ⊎ ((h : ℕ) × (gap ≡ suc h) × (u h ≡ true))
    best_free : AllFree r.best_start r.best_len
    within : r.best_start + r.best_len ≤ i
    largest : (s len : ℕ) → s + len ≤ i → AllFree s len → (len ≤ r.best_len) ⊎ (len ≤ r.run)

  -- no run has a page in use
  not_free : (s len h : ℕ) → AllFree s len → s ≤ h → h < s + len → u h ≡ true → ⊥
  not_free s len h is_free le lt used =
      let e : s + (h - s) ≡ h = omega arith in
      let f : true ≡ false = sym used ∙ ap u (sym e) ∙ is_free (h - s) (omega arith) in cc

  free-Scanned :
      {i : ℕ} {r : Runs}
      → Scanned i r
      → u i ≡ false
      → Scanned (suc i) (record r { run = suc r.run; start = if r.run == 0 then i else r.start })
  free-Scanned {i} {r} v is_free = record {
    gap = v.gap;
    place = omega (arith, v.place);
    free = λ j lt. elim (dec_lt j r.run) [
      | yes before ↦ v.free j before
      | no now ↦ let e : v.gap + j ≡ i = omega (arith, v.place) in rw e is_free
    ];
    begun = λ ne. elim (Bool-cases (r.run == 0)) [
      | inl none_yet ↦ ground (arith, v.place)
      | inr some_yet ↦ rw some_yet (v.begun (λ e. ground arith))
    ];
    wall = v.wall;
    best_free = v.best_free;
    within = omega (arith, v.within);
    largest = λ s len le all. elim (dec_le (s + len) i) [
      | yes earlier ↦ elim (v.largest s len earlier all) [
        | inl small ↦ inl small
        | inr small ↦ inr (omega arith)
      ]
      | no now ↦ elim v.wall [
        | inl bottom ↦ inr (omega (arith, v.place, bottom))
        | inr (h, above, used) ↦ elim (dec_lt h s) [
          | yes after ↦ inr (omega (arith, v.place, above))
          | no before ↦
              absurd (not_free s len h all (omega arith) (omega (arith, v.place, above)) used)
        ]
      ]
    ];
  }

  -- the run kept
  keep-Scanned :
      {i : ℕ} {r : Runs}
      → Scanned i r
      → AllFree (keep r).best_start (keep r).best_len
        × ((keep r).best_start + (keep r).best_len ≤ i)
        × ((s len : ℕ) → s + len ≤ i → AllFree s len → len ≤ (keep r).best_len)
  keep-Scanned {i} {r} v = elim (Bool-cases (ltb r.best_len r.run)) [
    | inl longer ↦
        let e : r.start ≡ v.gap = v.begun (λ e. ground arith) in
        rw (longer, e)
          (
            v.free,
            omega (arith, v.place),
            λ s len le all. elim (v.largest s len le all) [
              | inl small ↦ ground arith
              | inr small ↦ small
            ],
          )
    | inr shorter ↦ rw shorter (
      v.best_free,
      v.within,
      λ s len le all. elim (v.largest s len le all) [
        | inl small ↦ small
        | inr small ↦ ground arith
      ],
    )
  ]

  used-Scanned :
      {i : ℕ} {r : Runs} → Scanned i r → u i ≡ true → Scanned (suc i) (record (keep r) { run = 0 })
  used-Scanned {i} {r} v used =
      let (best_free, within, largest) = keep-Scanned v in
      record {
        gap = suc i;
        place = omega arith;
        free = λ j lt. absurd (omega arith);
        begun = λ ne. absurd (ne refl);
        wall = inr (i, refl, used);
        best_free = best_free;
        within = omega (arith, within);
        largest = λ s len le all. elim (dec_le (s + len) i) [
          | yes earlier ↦ inl (largest s len earlier all)
          | no now ↦ elim (dec_le len 0) [
            | yes empty ↦ inr empty
            | no some_page ↦ absurd (not_free s len i all (omega arith) (omega arith) used)
          ]
        ];
      }

  module _ (bitmap : List ℕ) (n : ℕ) (marks : Marks bitmap n u) where
    scan_runs-Scanned :
        (left i : ℕ) (r : Runs)
        → i + left ≡ n
        → Scanned i r
        → (r' : Runs) × (scan_runs bitmap left i r ≡ some r') × Scanned n r'
    unfolding scan_runs
    scan_runs-Scanned zero i r e v = let e' : i ≡ n = omega arith in (r, refl, rw (sym e') v)
    scan_runs-Scanned (suc left) i r e v = elim (Bool-cases (u i)) [
      | inl used ↦
          rw (scan_runs, marks i (omega arith), used)
            (scan_runs-Scanned left (suc i) (record (keep r) { run = 0 }) (omega arith)
              (used-Scanned v used))
      | inr is_free ↦
          rw (scan_runs, marks i (omega arith), is_free)
            (scan_runs-Scanned left (suc i)
              (record r { run = suc r.run; start = if r.run == 0 then i else r.start })
              (omega arith) (free-Scanned v is_free))
    ]

-- what is returned of the runs found
answer :
    (s : Pmm) (min_size : ℕ) (r : Runs)
    → scan_runs s.bitmap s.total_pages 0
        (record { best_start = 0; best_len = 0; run = 0; start = 0 })
      ≡ some r
    → (keep r).best_start + (keep r).best_len ≤ 1048576
    → min_size + 4095 < 2 ^ 64
    → find_contiguous s min_size
      ≡ some (
          if ltb (keep r).best_len ((min_size + 4095) / 4096)
          then (0, none)
          else ((keep r).best_start * 4096, some ((keep r).best_len * 4096)))
unfolding find_contiguous
answer s min_size r done small size =
    let pages : (min_size + 4096 - 1) % 2 ^ 64 ≡ min_size + 4095 = omega arith in
    let address : (keep r).best_start * 4096 % 2 ^ 64 ≡ (keep r).best_start * 4096 = omega arith in
    let extent : (keep r).best_len * 4096 % 2 ^ 64 ≡ (keep r).best_len * 4096 = omega arith in
    rw (find_contiguous, done, pages, address, extent) refl

-- `pmm_find_contiguous`, with the pages in use of `u`, finds a run of `len` free pages that is as long as
-- any, and returns it if it is long enough.
pub find_contiguous_lem :
    (s : Pmm) (u : ℕ → Bool) (min_size : ℕ)
    → Marks s.bitmap s.total_pages u
    → s.total_pages ≤ 1048576
    → min_size + 4095 < 2 ^ 64
    → (start : ℕ) × (len : ℕ) × AllFree u start len
      × (start + len ≤ s.total_pages)
      × ((other len' : ℕ) → other + len' ≤ s.total_pages → AllFree u other len' → len' ≤ len)
      × (find_contiguous s min_size
          ≡ some (
              if ltb len ((min_size + 4095) / 4096)
              then (0, none)
              else (start * 4096, some (len * 4096))))
unfolding find_contiguous
find_contiguous_lem s u min_size marks small size =
    let nothing : Scanned u 0 (record { best_start = 0; best_len = 0; run = 0; start = 0 }) =
      record {
        gap = 0;
        place = refl;
        free = λ j lt. absurd (omega arith);
        begun = λ ne. absurd (ne refl);
        wall = inl refl;
        best_free = λ j lt. absurd (omega arith);
        within = omega arith;
        largest = λ s len le all. inl (omega arith);
      } in
    let (r, done, v) =
      scan_runs-Scanned u s.bitmap s.total_pages marks s.total_pages 0 _ (omega arith) nothing in
    let (best_free, within, largest) = keep-Scanned u v in
    (
      (keep r).best_start,
      (keep r).best_len,
      best_free,
      within,
      largest,
      answer s min_size r done (omega (arith, within)) size,
    )
