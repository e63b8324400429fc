-- ===== src/Machine/Pmm/Balance.antt =====
-- `pmm_alloc_pages` and `pmm_free_pages` of arch/x86_64/pmm.c, and the count of free pages.
use ggmk.Base.{
  ℕ, zero, suc, ◌+◌, ◌-◌, ◌*◌, ◌/◌, ◌%◌, ◌^◌, ◌<◌, ◌≤◌, ◌≡◌, ◌∙◌, refl, ap, sym, Bool, true, false,
  ◌&&◌, Option, some, none, List, arith, ltb, leb, ◌==◌, if◌then◌else◌, ◌>>=◌, Bool-cases, inl, inr,
  dec_lt, lt→ltb, le→ltb,
}
use ggmk.Machine.Pmm.{Pmm, mark_pages, take_pages, alloc_pages, clear_pages, free_pages_at}
use ggmk.Machine.Pmm.Pages.{Marks, put, bitmap_set_lem, bitmap_clear_lem}
use ggmk.Machine.Pmm.Search.{First, search_lem}
use ggmk.Machine.Pmm.Counts.{
  free_count, filled, free_count-le, free_count-ext, free_count-release, filled-put,
  free_count-filled,
}

-- The pages in use are those of `u`, and the others are counted.
pub record IsBalanced (s : Pmm) (u : ℕ → Bool) : Type 0 where
  pub marks : Marks s.bitmap s.total_pages u
  pub counted : s.free_pages ≡ free_count s.total_pages u
  pub bounded : s.total_pages ≤ 1048576

IsBalanced-ext :
    {s : Pmm} {u v : ℕ → Bool}
    → ((j : ℕ) → j < s.total_pages → u j ≡ v j)
    → IsBalanced s u
    → IsBalanced s v
IsBalanced-ext {s} {u} {v} same h = record {
  marks = λ j lt. h.marks j lt ∙ ap some (same j lt);
  counted = h.counted ∙ free_count-ext s.total_pages u v same;
  bounded = h.bounded;
}

mark_pages_lem :
    (bitmap : List ℕ) (total n j : ℕ) (u : ℕ → Bool)
    → Marks bitmap total u
    → j + n ≤ total
    → (bitmap' : List ℕ) × (mark_pages bitmap n j ≡ some bitmap')
      × Marks bitmap' total (filled u j n true)
unfolding mark_pages
mark_pages_lem bitmap total zero j u marks le = (
  bitmap,
  refl,
  λ i lt. marks i lt ∙ ap some (let e : u i ≡ filled u j 0 true i = ground arith in e),
)
mark_pages_lem bitmap total (suc n) j u marks le =
    let (bitmap', set, marks') = bitmap_set_lem bitmap total u marks j (omega arith) in
    let (bitmap'', rest, marks'') =
      mark_pages_lem bitmap' total n (suc j) (put u j true) marks' (omega arith) in
    rw (mark_pages, set) (bitmap'', rest, λ i lt. marks'' i lt ∙ ap some (filled-put u j n true i))

-- the address of the pages found, 0 if there are none, and the pages in use then
abbrev pub address : Option ℕ → ℕ
address none = 0
address (some start) = start * 4096

abbrev pub taken : (ℕ → Bool) → ℕ → Option ℕ → ℕ → Bool
taken u count none = u
taken u count (some start) = filled u start count true

-- What is left behind: the same state, or one that differs in the bitmap and the count of free pages.
abbrev pub Leaves : Pmm → ℕ → Option ℕ → Pmm → Type 0
Leaves s count none s' = s' ≡ s
Leaves s count (some start) s' =
    s' ≡ record s { bitmap = s'.bitmap; free_pages = s.free_pages - count }

module _ (s : Pmm) (u : ℕ → Bool) (h : IsBalanced s u) (count : ℕ) (some_pages : 0 < count) where
  take_pages_lem :
      (found : Option ℕ)
      → First u count s.total_pages found
      → (s' : Pmm) × (take_pages s count found ≡ some (address found, s'))
        × IsBalanced s' (taken u count found)
        × (s'.total_pages ≡ s.total_pages)
        × Leaves s count found s'
  unfolding take_pages
  take_pages_lem none first = (s, refl, h, refl, refl)
  take_pages_lem (some start) (within, is_free, earliest) =
      let (bitmap, done, marks) =
        mark_pages_lem s.bitmap s.total_pages count start u h.marks within in
      let exact : start * 4096 % 2 ^ 64 ≡ start * 4096 = omega (arith, h.bounded) in
      rw (take_pages, done, exact)
        (
          _,
          refl,
          record {
            marks = marks;
            counted =
                omega
                  (arith, h.counted, free_count-filled s.total_pages u start count within is_free);
            bounded = h.bounded;
          },
          refl,
          refl,
        )

  -- too few free pages for any run
  too_few :
      (found : Option ℕ) → First u count s.total_pages found → s.free_pages < count → found ≡ none
  too_few none first few = refl
  too_few (some start) (within, is_free, earliest) few =
      absurd
        (omega (arith, h.counted, free_count-filled s.total_pages u start count within is_free))

  -- `pmm_alloc_pages` of one page or more, on at most 2 ^ 20 pages whose count of free pages is that of the bitmap,
  -- returns the address of the first run of so many free pages, and then exactly these pages are in use beside
  -- those that were; nothing but the bitmap and the count of free pages changes, which is less by the pages taken;
  -- if there is no such run, it returns 0 and the state is the same; the count of free pages stays that of the
  -- bitmap.
  pub alloc_pages_lem :
      (found : Option ℕ) × (s' : Pmm) × First u count s.total_pages found
      × (alloc_pages s count ≡ some (address found, s'))
      × IsBalanced s' (taken u count found)
      × (s'.total_pages ≡ s.total_pages)
      × Leaves s count found s'
  unfolding alloc_pages
  alloc_pages_lem =
      let (found, done, first) = search_lem u count s.bitmap s.total_pages h.marks some_pages in
      let ask : (count == 0) ≡ false = ground arith in
      elim (dec_lt s.free_pages count) [
        | yes few ↦
            let out = too_few found first few in
            rw (alloc_pages, ask, lt→ltb s.free_pages count few)
              (
                found,
                s,
                first,
                ap (λ (f : Option ℕ). some (address f, s)) (sym out),
                rw out h,
                refl,
                rw out refl,
              )
        | no enough ↦
            let (s', took, balanced, same, leaves) = take_pages_lem found first in
            rw (alloc_pages, ask, le→ltb s.free_pages count (omega arith), done)
              (found, s', first, took, balanced, same, leaves)
      ]

-- a page that is free already
filled_free :
    (u : ℕ → Bool) (i n : ℕ)
    → u i ≡ false
    → (j : ℕ) → filled u (suc i) n false j ≡ filled u i (suc n) false j
filled_free u i n is_free j =
    let same : put u i false j ≡ u j = elim (Bool-cases (i == j)) [
      | inl here ↦ let e : i ≡ j = ground arith in rw here (sym is_free ∙ ap u e)
      | inr other ↦ rw other refl
    ] in
    ap (λ (t : Bool). if leb (suc i) j && ltb j (suc i + n) then false else t) (sym same)
    ∙ filled-put u i n false j

clear_pages_lem :
    (left i : ℕ) (s : Pmm) (u : ℕ → Bool)
    → IsBalanced s u
    → (s' : Pmm) × (clear_pages left i s ≡ some s')
      × IsBalanced s' (filled u i left false)
      × (s'.total_pages ≡ s.total_pages)
unfolding clear_pages
clear_pages_lem zero i s u h = (s, refl, IsBalanced-ext (λ j lt. ground arith) h, refl)
clear_pages_lem (suc left) i s u h = elim (dec_lt i s.total_pages) [
  | no beyond ↦
      rw (clear_pages, le→ltb i s.total_pages (omega arith))
        (s, refl, IsBalanced-ext (λ j lt. ground arith) h, refl)
  | yes within ↦ elim (Bool-cases (u i)) [
    | inl used ↦
        let (bitmap, done, marks) = bitmap_clear_lem s.bitmap s.total_pages u h.marks i within in
        let more = free_count-release s.total_pages u i within used in
        let one : Pmm = record s { bitmap = bitmap; free_pages = (s.free_pages + 1) % 2 ^ 64 } in
        let balanced : IsBalanced one (put u i false) = record {
          marks = marks;
          counted = omega (arith, h.counted, more, h.bounded, free_count-le s.total_pages u);
          bounded = h.bounded;
        } in
        let (s', rest, balanced', same) =
          clear_pages_lem left (suc i) one (put u i false) balanced in
        rw (clear_pages, lt→ltb i s.total_pages within, h.marks i within, used, done)
          (s', rest, IsBalanced-ext (λ j lt. filled-put u i left false j) balanced', same)
    | inr is_free ↦
        let (s', rest, balanced', same) = clear_pages_lem left (suc i) s u h in
        rw (clear_pages, lt→ltb i s.total_pages within, h.marks i within, is_free)
          (s', rest, IsBalanced-ext (λ j lt. filled_free u i left is_free j) balanced', same)
  ]
]

module _ (s : Pmm) (u : ℕ → Bool) (h : IsBalanced s u) (addr count : ℕ) where
  pub free_pages_lem :
      (s' : Pmm) × (free_pages_at s addr count ≡ some s')
      × IsBalanced s' (filled u (addr / 4096) count false)
      × (s'.total_pages ≡ s.total_pages)
  unfolding free_pages_at
  free_pages_lem = clear_pages_lem count (addr / 4096) s u h

-- pages that were free, taken and released
released-taken :
    (u : ℕ → Bool) (start count : ℕ)
    → ((j : ℕ) → j < count → u (start + j) ≡ false)
    → (j : ℕ) → filled (filled u start count true) start count false j ≡ u j
released-taken u start count is_free j = elim (Bool-cases (leb start j && ltb j (start + count))) [
  | inr outside ↦ rw outside refl
  | inl inside ↦
      let e : start + (j - start) ≡ j = ground arith in
      rw inside (sym (is_free (j - start) (ground arith)) ∙ ap u e)
]

-- the pages of an allocation, if it has not failed, given back
abbrev pub give_back : ℕ → ℕ × Pmm → Option Pmm
give_back count (addr, s) = if addr == 0 then some s else free_pages_at s addr count

module _ (s : Pmm) (u : ℕ → Bool) (h : IsBalanced s u) (count : ℕ) (some_pages : 0 < count)
    (used : u 0 ≡ true) where
  given_back :
      (found : Option ℕ) (s' : Pmm)
      → First u count s.total_pages found
      → IsBalanced s' (taken u count found)
      → (s'' : Pmm) × (give_back count (address found, s') ≡ some s'') × IsBalanced s'' u
  given_back none s' first h' = (s', refl, h')
  given_back (some start) s' (within, is_free, earliest) h' =
      let e : start * 4096 / 4096 ≡ start = omega arith in
      let (s'', done, h'', same) =
        free_pages_lem s' (filled u start count true) h' (start * 4096) count in
      let not_zero : (start * 4096 == 0) ≡ false = elim (Bool-cases (start == 0)) [
        | inl zeroth ↦
            let at_zero : start + 0 ≡ 0 = ground arith in
            absurd (let f : true ≡ false = sym used ∙ rw at_zero at (is_free 0 some_pages) in cc)
        | inr later ↦ ground arith
      ] in
      rw (not_zero, done)
        (s'', refl, IsBalanced-ext (λ j lt. rw e (released-taken u start count is_free j)) h'')

  pub alloc-free :
      (s'' : Pmm) × (alloc_pages s count >>= give_back count ≡ some s'') × IsBalanced s'' u
  alloc-free =
      let (found, s', first, done, h', same, leaves) = alloc_pages_lem s u h count some_pages in
      rw done (given_back found s' first h')
