-- ===== src/Machine/Pmm.antt =====
-- arch/x86_64/pmm.c: the allocator of physical pages, a bitmap with a 1 for each page in use. `none` is a
-- call that reads or writes beyond the bitmap. What is printed is left out.
pub mod Pages
pub mod Search
pub mod Counts
pub mod Balance
pub mod Setup
pub mod Covered
pub mod Largest
mod Tests
use ggmk.Base.{
  ℕ, zero, suc, ◌+◌, ◌-◌, ◌*◌, ◌/◌, ◌%◌, ◌^◌, ◌==◌, Bool, true, false, not, Option, none, some,
  List, [], ◌∷◌, ltb, leb, if◌then◌else◌, length, get_elem?, set, modify, ◌>>=◌, bit_and, bit_or,
}

-- `PMM_PAGE_SIZE`, `MAX_PAGES`
abbrev pub pmm_page_size : ℕ
pmm_page_size = 4096

abbrev pub max_pages : ℕ
max_pages = 1048576

-- the static variables; `bitmap` has MAX_PAGES / 64 words
pub record Pmm : Type 0 where
  pub bitmap : List ℕ
  pub total_pages : ℕ
  pub usable_pages : ℕ
  pub free_pages : ℕ
  pub highest_addr : ℕ

-- `bitmap_set`
unfoldable pub bitmap_set : List ℕ → ℕ → Option (List ℕ)
bitmap_set bitmap page = get_elem? bitmap (page / 64) >>= λ word.
    some (set bitmap (page / 64) (bit_or word (2 ^ (page % 64))))

-- `bitmap_clear`
unfoldable pub bitmap_clear : List ℕ → ℕ → Option (List ℕ)
bitmap_clear bitmap page = get_elem? bitmap (page / 64) >>= λ word.
    some (set bitmap (page / 64) (bit_and word (2 ^ 64 - 1 - 2 ^ (page % 64))))

-- `bitmap_test`
unfoldable pub bitmap_test : List ℕ → ℕ → Option Bool
bitmap_test bitmap page =
    get_elem? bitmap (page / 64) >>= λ word. some (not (bit_and (word / 2 ^ (page % 64)) 1 == 0))

-- the loop of the search in `pmm_alloc_pages`, from page `i` on: the first page of a run of `count`
unfoldable pub search : List ℕ → ℕ → ℕ → ℕ → ℕ → ℕ → Option (Option ℕ)
unfolding bitmap_test
search bitmap count zero i run start = some none
search bitmap count (suc left) i run start =
    let next = λ (run : ℕ) (start : ℕ). search bitmap count left (suc i) run start in
    bitmap_test bitmap i >>= λ used.
    (let start' = if run == 0 then i else start in
      if used
      then next 0 start
      else if suc run == count
      then some (some start')
      else next (suc run) start')

-- the loop that marks `n` pages from page `j` on
unfoldable pub mark_pages : List ℕ → ℕ → ℕ → Option (List ℕ)
unfolding bitmap_set
mark_pages bitmap zero j = some bitmap
mark_pages bitmap (suc n) j =
    let next = λ (bitmap : List ℕ). mark_pages bitmap n (suc j) in bitmap_set bitmap j >>= next

-- the pages taken
unfoldable pub take_pages : Pmm → ℕ → Option ℕ → Option (ℕ × Pmm)
unfolding mark_pages
take_pages s count none = some (0, s)
take_pages s count (some start) = mark_pages s.bitmap count start >>= λ bitmap. some (
  start * pmm_page_size % 2 ^ 64,
  record s { bitmap = bitmap; free_pages = s.free_pages - count },
)

-- `pmm_alloc_pages`. The free pages are as many as the count at least, so that their subtraction does not
-- wrap.
unfoldable pub alloc_pages : Pmm → ℕ → Option (ℕ × Pmm)
unfolding search take_pages
alloc_pages s count =
    let found = search s.bitmap count s.total_pages 0 0 0 >>= λ start. take_pages s count start in
    if count == 0 then some (0, s) else if ltb s.free_pages count then some (0, s) else found

-- The loop of `pmm_free_pages`, with `left` pages to the last and at page `i`.
unfoldable pub clear_pages : ℕ → ℕ → Pmm → Option Pmm
unfolding bitmap_test bitmap_clear
clear_pages zero i s = some s
clear_pages (suc left) i s =
    let next = λ (s : Pmm). clear_pages left (suc i) s in
    let cleared = bitmap_clear s.bitmap i >>= λ bitmap.
    next (record s { bitmap = bitmap; free_pages = (s.free_pages + 1) % 2 ^ 64 }) in
    let step = bitmap_test s.bitmap i >>= λ used. (if used then cleared else next s) in
    if ltb i s.total_pages then step else some s

-- `pmm_free_pages`, for a range of pages that does not wrap
unfoldable pub free_pages_at : Pmm → ℕ → ℕ → Option Pmm
unfolding clear_pages
free_pages_at s addr count = clear_pages count (addr / pmm_page_size) s
