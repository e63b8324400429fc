-- ===== src/Machine/Paging/Tests.antt =====
-- A page mapped by arch/x86_64/paging.c in an empty table, with four pages free.
use ggmk.Base.{
  ℕ, zero, suc, ◌≡◌, refl, Bool, true, false, [], ◌∷◌, arith, ◌==◌, if◌then◌else◌, ltb, Bool-cases,
  inl, inr,
}
use ggmk.Machine.Pmm.{Pmm, bitmap_test}
use ggmk.Machine.Pmm.Pages.{Marks}
use ggmk.Machine.Pmm.Counts.{free_count}
use ggmk.Machine.Paging.{Paging, is_huge, frame, walk, unmap}
use ggmk.Machine.Paging.Unmapped.{unmap-walk}
use ggmk.Machine.Paging.Ranks.{Ranked}

abbrev pages : Pmm
pages = record {
  bitmap = 3 ∷ [];
  total_pages = 6;
  usable_pages = 5;
  free_pages = 4;
  highest_addr = 24576;
}

abbrev pub in_use : ℕ → Bool
in_use j = ltb j 2

pages-Marks : Marks (3 ∷ []) 6 in_use
unfolding bitmap_test
pages-Marks zero lt = refl
pages-Marks (suc zero) lt = refl
pages-Marks (suc (suc zero)) lt = refl
pages-Marks (suc (suc (suc zero))) lt = refl
pages-Marks (suc (suc (suc (suc zero)))) lt = refl
pages-Marks (suc (suc (suc (suc (suc zero))))) lt = refl
pages-Marks (suc (suc (suc (suc (suc (suc j)))))) lt = absurd (omega arith)

abbrev pub state : Paging
state = record { cr3 = 4096; tables = λ t i. 0; pmm = pages }

abbrev pub rank : ℕ → ℕ
rank t = if t == 4096 then 4 else 0

pub state-Ranked : Ranked state in_use rank
unfolding free_count
state-Ranked = record {
  balanced = record { marks = pages-Marks; counted = refl; bounded = omega arith };
  reserved = refl;
  root = refl;
  used = λ t ranked. elim (Bool-cases (t == 4096)) [
    | inl here ↦ ground arith
    | inr other ↦ absurd (ranked (rw other refl))
  ];
  top = λ t i four. refl;
  below = λ t i n deep present flat. absurd (let f : false ≡ true = present in cc);
}

-- pages 1 to 4 hold the four tables of address 0, which is mapped to page 5
abbrev full_pages : Pmm
full_pages = record {
  bitmap = 63 ∷ [];
  total_pages = 6;
  usable_pages = 5;
  free_pages = 0;
  highest_addr = 24576;
}

full_pages-Marks : Marks (63 ∷ []) 6 (λ j. true)
unfolding bitmap_test
full_pages-Marks zero lt = refl
full_pages-Marks (suc zero) lt = refl
full_pages-Marks (suc (suc zero)) lt = refl
full_pages-Marks (suc (suc (suc zero))) lt = refl
full_pages-Marks (suc (suc (suc (suc zero)))) lt = refl
full_pages-Marks (suc (suc (suc (suc (suc zero))))) lt = refl
full_pages-Marks (suc (suc (suc (suc (suc (suc j)))))) lt = absurd (omega arith)

abbrev first_entry : ℕ → ℕ
first_entry t =
    if t == 4096
    then 8195
    else if t == 8192
    then 12291
    else if t == 12288
    then 16387
    else if t == 16384
    then 20483
    else 0

abbrev pub mapped : Paging
mapped = record {
  cr3 = 4096;
  tables = λ t i. if i == 0 then first_entry t else 0;
  pmm = full_pages;
}

abbrev pub depth : ℕ → ℕ
depth t =
    if t == 4096
    then 4
    else if t == 8192
    then 3
    else if t == 12288
    then 2
    else if t == 16384
    then 1
    else 0

first_entry-below :
    (t n : ℕ)
    → depth t ≡ suc (suc n)
    → (is_huge (first_entry t) ≡ false) × (depth (frame (first_entry t)) ≡ suc n)
first_entry-below t n deep = elim (Bool-cases (t == 4096)) [
  | inl one ↦ rw one (refl, let e : 4 ≡ suc (suc n) = rw one at deep in omega arith)
  | inr not_one ↦ elim (Bool-cases (t == 8192)) [
    | inl two ↦
        rw (not_one, two) (refl, let e : 3 ≡ suc (suc n) = rw (not_one, two) at deep in omega arith)
    | inr not_two ↦ elim (Bool-cases (t == 12288)) [
      | inl three ↦
          rw (not_one, not_two, three)
            (refl, let e : 2 ≡ suc (suc n) = rw (not_one, not_two, three) at deep in omega arith)
      | inr not_three ↦ absurd (ground arith)
    ]
  ]
]

pub mapped-Ranked : Ranked mapped (λ j. true) depth
unfolding free_count
mapped-Ranked = record {
  balanced = record { marks = full_pages-Marks; counted = refl; bounded = omega arith };
  reserved = refl;
  root = refl;
  used = λ t ranked. refl;
  top = λ t i four. elim (Bool-cases (i == 0)) [
    | inl first ↦ rw first (first_entry-below t 2 four).0
    | inr other ↦ rw other refl
  ];
  below = λ t i n deep present flat. elim (Bool-cases (i == 0)) [
    | inl first ↦ rw first (first_entry-below t n deep).1
    | inr other ↦ absurd (let f : false ≡ true = rw other at present in cc)
  ];
}

unmap-walk_sample :
    (s' : Paging) × (unmap mapped 0 ≡ (frame (walk mapped 0).4, s'))
    × (walk s' 0 ≡ (4, (walk mapped 0).1, (walk mapped 0).2, (walk mapped 0).3, 0))
    × ((u' : ℕ → Bool) × (rank' : ℕ → ℕ) × Ranked s' u' rank')
unfolding walk
unmap-walk_sample = unmap-walk mapped (λ j. true) depth mapped-Ranked 0 refl refl
