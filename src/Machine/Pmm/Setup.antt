-- ===== src/Machine/Pmm/Setup.antt =====
-- `pmm_init` of arch/x86_64/pmm.c: the bitmap from the memory map of the boot loader.
use ggmk.Base.{
  ℕ, zero, suc, ◌+◌, ◌-◌, ◌/◌, ◌%◌, ◌^◌, Bool, Option, none, some, List, [], ◌∷◌, ltb,
  if◌then◌else◌, get_elem?, set, ◌>>=◌, bit_and,
}
use ggmk.Machine.Pmm.{Pmm, max_pages, pmm_page_size, bitmap_clear}

-- an entry of the memory map
pub record Range : Type 0 where
  pub base : ℕ
  pub size : ℕ
  pub is_usable : Bool

-- the end of a range
abbrev pub top : Range → ℕ
top e = (e.base + e.size) % 2 ^ 64

-- the first pass, from the highest end so far
unfoldable pub highest : List Range → ℕ → ℕ
highest [] so_far = so_far
highest (e ∷ entries) so_far = highest entries (if ltb so_far (top e) then top e else so_far)

-- the pages of the bitmap
unfoldable pub pages_of : ℕ → ℕ
pages_of highest_addr =
    if ltb max_pages (highest_addr / pmm_page_size) then max_pages else highest_addr / pmm_page_size

-- the loop that fills `n` words from word `i` on
unfoldable pub fill_words : List ℕ → ℕ → ℕ → Option (List ℕ)
fill_words bitmap zero i = some bitmap
fill_words bitmap (suc n) i =
    let next = λ (bitmap : List ℕ). fill_words bitmap n (suc i) in
    (get_elem? bitmap i >>= λ word. some (set bitmap i (2 ^ 64 - 1))) >>= next

-- the loop over `n` pages of a usable range from page `page` on
unfoldable pub clear_range : ℕ → ℕ → Pmm → Option Pmm
unfolding bitmap_clear
clear_range zero page s = some s
clear_range (suc n) page s =
    let next = λ (s : Pmm). clear_range n (suc page) s in
    let cleared = bitmap_clear s.bitmap page >>= λ bitmap.
    some (record s { bitmap = bitmap; free_pages = (s.free_pages + 1) % 2 ^ 64 }) in
    (if ltb page s.total_pages then cleared else some s) >>= next

-- the first page of a range, and the page behind its last
unfoldable pub first_page : Range → ℕ
first_page e =
    bit_and ((e.base + pmm_page_size - 1) % 2 ^ 64) (2 ^ 64 - pmm_page_size) / pmm_page_size

unfoldable pub end_page : Range → ℕ
end_page e = bit_and (top e) (2 ^ 64 - pmm_page_size) / pmm_page_size

-- the second pass
unfoldable pub clear_ranges : List Range → Pmm → Option Pmm
unfolding clear_range first_page end_page
clear_ranges [] s = some s
clear_ranges (e ∷ entries) s =
    let next = λ (s : Pmm). clear_ranges entries s in
    (if e.is_usable then clear_range (end_page e - first_page e) (first_page e) s else some s)
    >>= next

-- `pmm_init`; `none` of the entries is a NULL response
unfoldable pub init : Pmm → Option (List Range) → Option Pmm
unfolding highest pages_of fill_words clear_ranges
init s none = some s
init s (some entries) =
    let total = pages_of (highest entries 0) in
    fill_words s.bitmap (total / 64 + 1) 0 >>= λ bitmap.
    (clear_ranges entries (record s {
      bitmap = bitmap;
      total_pages = total;
      free_pages = 0;
      highest_addr = highest entries 0;
    })
      >>= λ s'. some (record s' { usable_pages = s'.free_pages }))
