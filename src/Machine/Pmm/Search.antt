-- ===== src/Machine/Pmm/Search.antt =====
-- The search of `pmm_alloc_pages` of arch/x86_64/pmm.c finds the first run of free pages.
use ggmk.Base.{
  ℕ, zero, suc, ◌+◌, ◌-◌, ◌<◌, ◌≤◌, ◌≡◌, ◌≢◌, ◌⊎◌, refl, Bool, true, false, Option, some, none,
  List, arith, ◌==◌, if◌then◌else◌, Bool-cases, inl, inr, dec_le, dec_lt,
}
use ggmk.Machine.Pmm.{search}
use ggmk.Machine.Pmm.Pages.{Marks}

module _ (u : ℕ → Bool) (count : ℕ) where
  -- one of `count` pages from `s` on is in use
  abbrev pub Blocked : ℕ → Type 0
  Blocked s = (j : ℕ) × (j < count) × (u (s + j) ≡ true)

  -- `count` pages from `s` on are free
  abbrev pub Free : ℕ → Type 0
  Free s = (j : ℕ) → j < count → u (s + j) ≡ false

  -- What the search returns: the first run below page `n`, if there is one.
  abbrev pub First : ℕ → Option ℕ → Type 0
  First n none = (s : ℕ) → s + count ≤ n → Blocked s
  First n (some start) = (start + count ≤ n) × Free start × ((s : ℕ) → s < start → Blocked s)

  -- the state of the search at page `i`
  record Scan (i run start : ℕ) : Type 0 where
    gap : ℕ
    place : i ≡ gap + run
    free : (j : ℕ) → j < run → u (gap + j) ≡ false
    begun : run ≢ 0 → start ≡ gap
    wall : (gap ≡ 0) ⊎ ((h : ℕ) × (gap ≡ suc h) × (u h ≡ true))
    short : run < count
    none_before : (s : ℕ) → s + count ≤ i → Blocked s

  -- A run that would end at the page `i` starts before the wall.
  at_wall :
      {i run start : ℕ} (scan : Scan i run start)
      → suc run < count
      → (s : ℕ) → s + count ≡ suc i
      → Blocked s
  at_wall {i} {run} scan short s ends = elim scan.wall [
    | inl bottom ↦ absurd (omega (arith, scan.place, bottom))
    | inr (h, above, used) ↦
        let e : s + (h - s) ≡ h = omega (arith, scan.place, above) in
        (h - s, omega (arith, scan.place, above), rw e used)
  ]

  free-Scan :
      {i run start : ℕ}
      → Scan i run start
      → u i ≡ false
      → suc run < count
      → Scan (suc i) (suc run) (if run == 0 then i else start)
  free-Scan {i} {run} {start} scan is_free short = record {
    gap = scan.gap;
    place = omega (arith, scan.place);
    free = λ j lt. elim (dec_lt j run) [
      | yes before ↦ scan.free j before
      | no now ↦ let e : scan.gap + j ≡ i = omega (arith, scan.place) in rw e is_free
    ];
    begun = λ ne. elim (Bool-cases (run == 0)) [
      | inl none_yet ↦ ground (arith, scan.place)
      | inr some_yet ↦ rw some_yet (scan.begun (λ e. ground arith))
    ];
    wall = scan.wall;
    short = short;
    none_before = λ s le. elim (dec_le (s + count) i) [
      | yes earlier ↦ scan.none_before s earlier
      | no now ↦ at_wall scan short s (omega arith)
    ];
  }

  used-Scan : {i run start : ℕ} → Scan i run start → u i ≡ true → Scan (suc i) 0 start
  used-Scan {i} scan used = record {
    gap = suc i;
    place = omega arith;
    free = λ j lt. absurd (omega arith);
    begun = λ ne. absurd (ne refl);
    wall = inr (i, refl, used);
    short = omega (arith, scan.short);
    none_before = λ s le. elim (dec_le (s + count) i) [
      | yes earlier ↦ scan.none_before s earlier
      | no now ↦
          let e : s + (count - 1) ≡ i = omega (arith, scan.short) in
          (count - 1, omega (arith, scan.short), rw e used)
    ];
  }

  found-First :
      {i run start n : ℕ}
      → Scan i run start
      → u i ≡ false
      → suc run ≡ count
      → i < n
      → First n (some (if run == 0 then i else start))
  found-First {i} {run} {start} scan is_free whole lt =
      let e : (if run == 0 then i else start) ≡ scan.gap = elim (Bool-cases (run == 0)) [
        | inl none_yet ↦ ground (arith, scan.place)
        | inr some_yet ↦ rw some_yet (scan.begun (λ e. ground arith))
      ] in
      rw e (
        omega (arith, scan.place),
        (λ j lt'. elim (dec_lt j run) [
          | yes before ↦ scan.free j before
          | no now ↦ let here : scan.gap + j ≡ i = omega (arith, scan.place) in rw here is_free
        ]),
        λ s lt'. scan.none_before s (omega (arith, scan.place)),
      )

  module _ (bitmap : List ℕ) (n : ℕ) (marks : Marks bitmap n u) where
    search-Scan :
        (left i run start : ℕ)
        → i + left ≡ n
        → Scan i run start
        → (found : Option ℕ) × (search bitmap count left i run start ≡ some found) × First n found
    unfolding search
    search-Scan zero i run start e scan = (none, refl, λ s le. scan.none_before s (omega arith))
    search-Scan (suc left) i run start e scan = elim (Bool-cases (u i)) [
      | inl used ↦
          rw (search, marks i (omega arith), used)
            (search-Scan left (suc i) 0 start (omega arith) (used-Scan scan used))
      | inr is_free ↦ elim (Bool-cases (suc run == count)) [
        | inl whole ↦
            rw (search, marks i (omega arith), is_free, whole)
              (
                some (if run == 0 then i else start),
                refl,
                found-First scan is_free (ground arith) (omega arith),
              )
        | inr part ↦
            rw (search, marks i (omega arith), is_free, part)
              (search-Scan left (suc i) (suc run) (if run == 0 then i else start) (omega arith)
                (free-Scan scan is_free (ground (arith, scan.short))))
      ]
    ]

    pub search_lem :
        0 < count → (found : Option ℕ) × (search bitmap count n 0 0 0 ≡ some found) × First n found
    search_lem some_pages = search-Scan n 0 0 0 (omega arith) (record {
      gap = 0;
      place = refl;
      free = λ j lt. absurd (omega arith);
      begun = λ ne. absurd (ne refl);
      wall = inl refl;
      short = some_pages;
      none_before = λ s le. absurd (omega arith);
    })
