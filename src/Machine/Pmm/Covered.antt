-- ===== src/Machine/Pmm/Covered.antt =====
-- What `pmm_init` of arch/x86_64/pmm.c leaves in the bitmap.
use ggmk.Base.{
  ℕ, zero, suc, ◌+◌, ◌-◌, ◌*◌, if◌then◌else◌, ◌/◌, ◌%◌, ◌^◌, ◌<◌, ◌≤◌, ◌≡◌, ◌∙◌, refl, ap, sym,
  Bool, true, false, not, ◌&&◌, ◌||◌, none, some, List, [], ◌∷◌, arith, ltb, leb, ◌==◌, length,
  get_elem?, set, get_elem?-of_lt, get_elem?-set_self, get_elem?-set_ne, length-set, Bool-cases,
  inl, inr, dec_lt, lt→ltb, le→ltb,
}
use Prim.Native.Nat.{max}
use ggmk.Bits.Bit.{test-ones}
use ggmk.Bits.Masks.{bit_and-align4096}
use ggmk.Machine.Pmm.{Pmm, bitmap_test}
use ggmk.Machine.Pmm.Pages.{Marks, put, bitmap_clear_lem}
use ggmk.Machine.Pmm.Counts.{filled, filled-put}
use ggmk.Machine.Pmm.Setup.{
  Range, highest, pages_of, fill_words, clear_range, first_page, end_page, clear_ranges, init, top,
}

abbrev ones : ℕ
ones = 2 ^ 64 - 1

fill_words_lem :
    (n i : ℕ) (bitmap : List ℕ)
    → i + n ≤ length bitmap
    → (bitmap' : List ℕ) × (fill_words bitmap n i ≡ some bitmap')
      × ((k : ℕ) → k < i → get_elem? bitmap' k ≡ get_elem? bitmap k)
      × ((k : ℕ) → i ≤ k → k < i + n → get_elem? bitmap' k ≡ some ones)
unfolding fill_words
fill_words_lem zero i bitmap fits = (bitmap, refl, (λ k lt. refl), λ k le lt. absurd (omega arith))
fill_words_lem (suc n) i bitmap fits =
    let (word, at) = get_elem?-of_lt bitmap i (omega arith) in
    let size = length-set bitmap i ones in
    let (bitmap', done, below, within) =
      fill_words_lem n (suc i) (set bitmap i ones) (omega (arith, size)) in
    rw (fill_words, at)
      (
        bitmap',
        done,
        (λ k lt. below k (omega arith) ∙ get_elem?-set_ne bitmap ones (λ e. absurd (omega arith))),
        λ k le lt. elim (Bool-cases (i == k)) [
          | inl here ↦
              let e : i ≡ k = ground arith in
              below k (omega arith)
              ∙ ap (λ (j : ℕ). get_elem? (set bitmap i ones) j) (sym e)
              ∙ get_elem?-set_self bitmap i ones (omega arith)
          | inr later ↦ within k (ground arith) (omega arith)
        ],
      )

get_elem?-beyond : (bitmap : List ℕ) (i : ℕ) → length bitmap ≤ i → get_elem? bitmap i ≡ none
get_elem?-beyond [] i le = refl
get_elem?-beyond (x ∷ bitmap) zero le = absurd (omega arith)
get_elem?-beyond (x ∷ bitmap) (suc i) le = get_elem?-beyond bitmap i (omega arith)

fill_words-overruns :
    (n i : ℕ) (bitmap : List ℕ)
    → length bitmap < i + n
    → i ≤ length bitmap
    → fill_words bitmap n i ≡ none
unfolding fill_words
fill_words-overruns zero i bitmap more le = absurd (omega arith)
fill_words-overruns (suc n) i bitmap more le = elim (dec_lt i (length bitmap)) [
  | yes lt ↦
      let (word, at) = get_elem?-of_lt bitmap i lt in
      let size = length-set bitmap i ones in
      rw (fill_words, at)
        (fill_words-overruns n (suc i) (set bitmap i ones) (omega (arith, size))
          (omega (arith, size)))
  | no ge ↦ rw (fill_words, get_elem?-beyond bitmap i (omega arith)) refl
]

-- all pages in use
filled-Marks :
    (bitmap : List ℕ) (total : ℕ)
    → ((k : ℕ) → 0 ≤ k → k < 0 + (total / 64 + 1) → get_elem? bitmap k ≡ some ones)
    → Marks bitmap total (λ j. true)
unfolding bitmap_test
filled-Marks bitmap total within j lt =
    rw (bitmap_test, within (j / 64) (omega arith) (omega arith))
      (ap some (test-ones (j % 64) (omega arith)))

-- The second pass clears the page `j`.
unfoldable cleared : List Range → ℕ → Bool
cleared [] j = false
cleared (e ∷ entries) j =
    e.is_usable && leb (first_page e) j && ltb j (end_page e) || cleared entries j

clear_range_lem :
    (n page : ℕ) (s : Pmm) (u : ℕ → Bool)
    → Marks s.bitmap s.total_pages u
    → (s' : Pmm) × (clear_range n page s ≡ some s')
      × Marks s'.bitmap s.total_pages (filled u page n false)
      × (s'.total_pages ≡ s.total_pages)
unfolding clear_range
clear_range_lem zero page s u marks = (
  s,
  refl,
  (λ j lt. marks j lt ∙ ap some (let e : u j ≡ filled u page 0 false j = ground arith in e)),
  refl,
)
clear_range_lem (suc n) page s u marks = elim (dec_lt page s.total_pages) [
  | yes within ↦
      let (bitmap, done, marks') = bitmap_clear_lem s.bitmap s.total_pages u marks page within in
      let (s', rest, marks'', same) =
        clear_range_lem n (suc page)
          (record s { bitmap = bitmap; free_pages = (s.free_pages + 1) % 2 ^ 64 })
          (put u page false) marks' in
      rw (clear_range, lt→ltb page s.total_pages within, done)
        (s', rest, (λ j lt. marks'' j lt ∙ ap some (filled-put u page n false j)), same)
  | no beyond ↦
      let (s', rest, marks', same) = clear_range_lem n (suc page) s u marks in
      rw (clear_range, le→ltb page s.total_pages (omega arith))
        (
          s',
          rest,
          (λ j lt.
              marks' j lt
              ∙ ap some (
                  let e : filled u (suc page) n false j ≡ filled u page (suc n) false j =
                    ground arith in
                  e)),
          same,
        )
]

cleared-step :
    (u : ℕ → Bool) (first last j : ℕ) (rest : Bool)
    → filled u first (last - first) false j && not rest
      ≡ u j && not (leb first j && ltb j last || rest)
cleared-step u first last j rest = ground arith

clear_ranges_lem :
    (entries : List Range) (s : Pmm) (u : ℕ → Bool)
    → Marks s.bitmap s.total_pages u
    → (s' : Pmm) × (clear_ranges entries s ≡ some s')
      × Marks s'.bitmap s.total_pages (λ j. u j && not (cleared entries j))
      × (s'.total_pages ≡ s.total_pages)
unfolding clear_ranges cleared
clear_ranges_lem [] s u marks =
    (s, refl, (λ j lt. marks j lt ∙ ap some (let e : u j ≡ u j && true = ground arith in e)), refl)
clear_ranges_lem (e ∷ entries) s u marks = elim (Bool-cases e.is_usable) [
  | inl usable ↦
      let (s', done, marks', same) =
        clear_range_lem (end_page e - first_page e) (first_page e) s u marks in
      let (s'', rest, marks'', same') =
        clear_ranges_lem entries s' (filled u (first_page e) (end_page e - first_page e) false)
          (λ j lt. marks' j (omega (arith, same))) in
      rw (clear_ranges, usable, done)
        (
          s'',
          rest,
          (λ j lt.
              marks'' j (omega (arith, same))
              ∙ ap some (cleared-step u (first_page e) (end_page e) j (cleared entries j))),
          same' ∙ same,
        )
  | inr reserved ↦
      let (s', rest, marks', same) = clear_ranges_lem entries s u marks in
      rw (clear_ranges, reserved) (s', rest, marks', same)
]

-- A usable range has the whole of page `j`.
unfoldable pub covered : List Range → ℕ → Bool
covered [] j = false
covered (e ∷ entries) j =
    e.is_usable && leb e.base (j * 4096) && leb (j * 4096 + 4096) (e.base + e.size)
    || covered entries j

-- the highest end of the ranges
unfoldable pub last_end : List Range → ℕ
last_end [] = 0
last_end (e ∷ entries) = max (e.base + e.size) (last_end entries)

highest_lem :
    (entries : List Range) (so_far : ℕ)
    → last_end entries < 2 ^ 64
    → highest entries so_far ≡ max so_far (last_end entries)
unfolding highest last_end
highest_lem [] so_far small = omega arith
highest_lem (e ∷ entries) so_far small =
    let rest = highest_lem entries (if ltb so_far (top e) then top e else so_far) (omega arith) in
    ground (arith, rest)

first_page_lem : (e : Range) → e.base < 2 ^ 32 → first_page e ≡ (e.base + 4095) / 4096
unfolding first_page
first_page_lem e small =
    omega (arith, bit_and-align4096 ((e.base + 4096 - 1) % 2 ^ 64) (omega arith))

end_page_lem : (e : Range) → e.base + e.size < 2 ^ 32 → end_page e ≡ (e.base + e.size) / 4096
unfolding end_page
end_page_lem e small = omega (arith, bit_and-align4096 (top e) (omega arith))

cleared-covered :
    (entries : List Range) (j : ℕ)
    → last_end entries < 2 ^ 32
    → cleared entries j ≡ covered entries j
unfolding cleared covered last_end
cleared-covered [] j small = refl
cleared-covered (e ∷ entries) j small =
    let rest = cleared-covered entries j (omega arith) in
    let first = first_page_lem e (omega arith) in
    let last = end_page_lem e (omega arith) in ground (arith, rest, first, last)

module _ (s : Pmm) (entries : List Range) (words : length s.bitmap ≡ 16384) where
  -- `pmm_init`, over a bitmap of 16384 words and a memory map that ends below page 2 ^ 20, returns, and exactly
  -- those pages are free of which a usable range of the map has the whole; there are as many pages as lie below
  -- the highest end of the ranges.
  pub init_lem :
      last_end entries / 4096 < 1048576
      → (s' : Pmm) × (init s (some entries) ≡ some s')
        × (s'.total_pages ≡ last_end entries / 4096)
        × Marks s'.bitmap s'.total_pages (λ j. not (covered entries j))
  unfolding init pages_of
  init_lem below =
      let end : highest entries 0 ≡ last_end entries =
        highest_lem entries 0 (omega arith) ∙ omega arith in
      let total : pages_of (highest entries 0) ≡ last_end entries / 4096 = ground arith in
      let (bitmap, filled, earlier, within) =
        fill_words_lem (pages_of (highest entries 0) / 64 + 1) 0 s.bitmap (omega (arith, total)) in
      let (s', done, marks, same) =
        clear_ranges_lem entries
          (record s {
            bitmap = bitmap;
            total_pages = pages_of (highest entries 0);
            free_pages = 0;
            highest_addr = highest entries 0;
          })
          (λ j. true) (filled-Marks bitmap (pages_of (highest entries 0)) within) in
      rw (init, filled, done)
        (
          _,
          refl,
          same ∙ total,
          λ j lt.
              marks j (omega (arith, same))
              ∙ ap (λ (b : Bool). some (not b)) (cleared-covered entries j (omega arith)),
        )

  -- Where the memory reaches 4 GB, the loop that fills the bitmap writes behind its last word.
  pub init-overruns : 1048576 ≤ highest entries 0 / 4096 → init s (some entries) ≡ none
  unfolding init pages_of
  init-overruns above =
      let total : pages_of (highest entries 0) ≡ 1048576 = ground arith in
      rw (init, total, fill_words-overruns 16385 0 s.bitmap (omega arith) (omega arith)) refl
