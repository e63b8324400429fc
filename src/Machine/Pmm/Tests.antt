-- ===== src/Machine/Pmm/Tests.antt =====
-- The theorems on arch/x86_64/pmm.c at a bitmap of four pages, the first and the last in use.
use ggmk.Base.{
  ℕ, zero, suc, ◌≡◌, refl, Bool, true, false, Option, some, none, List, [], ◌∷◌, arith, ◌==◌, ◌||◌,
  ◌>>=◌, ◌+◌, ◌*◌, ◌/◌, ◌≤◌, ltb, not, if◌then◌else◌, replicate, length-replicate,
}
use ggmk.Machine.Pmm.{Pmm, bitmap_test, alloc_pages, free_pages_at}
use ggmk.Machine.Pmm.Pages.{Marks}
use ggmk.Machine.Pmm.Search.{First}
use ggmk.Machine.Pmm.Counts.{free_count, filled}
use ggmk.Machine.Pmm.Setup.{Range, highest, init}
use ggmk.Machine.Pmm.Covered.{covered, last_end, init_lem, init-overruns}
use ggmk.Machine.Pmm.Largest.{AllFree, find_contiguous, find_contiguous_lem}
use ggmk.Machine.Pmm.Balance.{
  IsBalanced, Leaves, address, taken, give_back, alloc_pages_lem, free_pages_lem, alloc-free,
}

abbrev four_pages : Pmm
four_pages = record {
  bitmap = 9 ∷ [];
  total_pages = 4;
  usable_pages = 2;
  free_pages = 2;
  highest_addr = 16384;
}

abbrev in_use : ℕ → Bool
in_use j = j == 0 || j == 3

four_pages-Marks : Marks (9 ∷ []) 4 in_use
unfolding bitmap_test
four_pages-Marks zero lt = refl
four_pages-Marks (suc zero) lt = refl
four_pages-Marks (suc (suc zero)) lt = refl
four_pages-Marks (suc (suc (suc zero))) lt = refl
four_pages-Marks (suc (suc (suc (suc j)))) lt = absurd (omega arith)

four_pages-IsBalanced : IsBalanced four_pages in_use
unfolding free_count
four_pages-IsBalanced = record { marks = four_pages-Marks; counted = refl; bounded = omega arith }

alloc_pages_lem_example :
    (found : Option ℕ) × (s' : Pmm) × First in_use 2 4 found
    × (alloc_pages four_pages 2 ≡ some (address found, s'))
    × IsBalanced s' (taken in_use 2 found)
    × (s'.total_pages ≡ 4)
    × Leaves four_pages 2 found s'
alloc_pages_lem_example = alloc_pages_lem four_pages in_use four_pages-IsBalanced 2 (omega arith)

alloc-free_example :
    (s'' : Pmm) × (alloc_pages four_pages 2 >>= give_back 2 ≡ some s'') × IsBalanced s'' in_use
alloc-free_example = alloc-free four_pages in_use four_pages-IsBalanced 2 (omega arith) refl

free_pages_sample :
    (s' : Pmm) × (free_pages_at four_pages 12288 9 ≡ some s')
    × IsBalanced s' (filled in_use 3 9 false)
    × (s'.total_pages ≡ 4)
free_pages_sample = free_pages_lem four_pages in_use four_pages-IsBalanced 12288 9

find_contiguous_lem_sample :
    (start : ℕ) × (len : ℕ) × AllFree in_use start len
    × (start + len ≤ 4)
    × ((other len' : ℕ) → other + len' ≤ 4 → AllFree in_use other len' → len' ≤ len)
    × (find_contiguous four_pages 5000
        ≡ some (
            if ltb len ((5000 + 4095) / 4096)
            then (0, none)
            else (start * 4096, some (len * 4096))))
find_contiguous_lem_sample =
    find_contiguous_lem four_pages in_use 5000 four_pages-Marks (omega arith) (omega arith)

-- the variables before `pmm_init`
abbrev blank : Pmm
blank = record {
  bitmap = replicate 16384 0;
  total_pages = 0;
  usable_pages = 0;
  free_pages = 0;
  highest_addr = 0;
}

abbrev two_pages : List Range
two_pages =
    record { base = 4096; size = 8192; is_usable = true }
    ∷ record { base = 0; size = 16384; is_usable = false }
    ∷ []

abbrev four_gigabytes : List Range
four_gigabytes = record { base = 4096; size = 0xffff_f000; is_usable = true } ∷ []

init_lem_example :
    (s' : Pmm) × (init blank (some two_pages) ≡ some s')
    × (s'.total_pages ≡ last_end two_pages / 4096)
    × Marks s'.bitmap s'.total_pages (λ j. not (covered two_pages j))
unfolding last_end
init_lem_example = init_lem blank two_pages (length-replicate {A = ℕ} 16384 0) (omega arith)

init-overruns_sample : init blank (some four_gigabytes) ≡ none
unfolding highest
init-overruns_sample =
    init-overruns blank four_gigabytes (length-replicate {A = ℕ} 16384 0) (omega arith)
