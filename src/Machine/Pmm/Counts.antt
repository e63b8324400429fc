-- ===== src/Machine/Pmm/Counts.antt =====
-- The free pages of arch/x86_64/pmm.c, counted.
use ggmk.Base.{
  ℕ, zero, suc, ◌+◌, ◌<◌, ◌≤◌, ◌≡◌, ◌∙◌, refl, ap, sym, Bool, true, false, ◌&&◌, arith, ltb, leb,
  ◌==◌, if◌then◌else◌, Bool-cases, inl, inr,
}
use ggmk.Machine.Pmm.Pages.{put}

-- the pages below `n` that are free
unfoldable pub free_count : ℕ → (ℕ → Bool) → ℕ
free_count zero u = 0
free_count (suc n) u = if u n then free_count n u else suc (free_count n u)

-- the predicate with another value at `n` pages from `j` on
abbrev pub filled : (ℕ → Bool) → ℕ → ℕ → Bool → ℕ → Bool
filled u j n b i = if leb j i && ltb i (j + n) then b else u i

pub free_count-le : (n : ℕ) (u : ℕ → Bool) → free_count n u ≤ n
unfolding free_count
free_count-le zero u = omega arith
free_count-le (suc n) u = ground (arith, free_count-le n u)

pub free_count-ext :
    (n : ℕ) (u v : ℕ → Bool) → ((j : ℕ) → j < n → u j ≡ v j) → free_count n u ≡ free_count n v
unfolding free_count
free_count-ext zero u v same = refl
free_count-ext (suc n) u v same =
    rw (same n (omega arith), free_count-ext n u v (λ j lt. same j (omega arith))) refl

free_count-put_beyond :
    (n : ℕ) (u : ℕ → Bool) (i : ℕ) (b : Bool) → n ≤ i → free_count n (put u i b) ≡ free_count n u
free_count-put_beyond n u i b le = free_count-ext n (put u i b) u (λ j lt. ground arith)

-- a free page taken
pub free_count-take :
    (n : ℕ) (u : ℕ → Bool) (i : ℕ)
    → i < n
    → u i ≡ false
    → suc (free_count n (put u i true)) ≡ free_count n u
unfolding free_count
free_count-take zero u i lt is_free = absurd (omega arith)
free_count-take (suc n) u i lt is_free = elim (Bool-cases (i == n)) [
  | inl last ↦
      let e : i ≡ n = ground arith in
      let here : u n ≡ false = ap u (sym e) ∙ is_free in
      rw (last, here, free_count-put_beyond n u i true (omega arith)) refl
  | inr other ↦
      let below = free_count-take n u i (ground arith) is_free in
      rw other
        (elim (Bool-cases (u n)) [ inl used ↦ rw used below | inr here ↦ rw here (ap suc below) ])
]

-- a page in use released
pub free_count-release :
    (n : ℕ) (u : ℕ → Bool) (i : ℕ)
    → i < n
    → u i ≡ true
    → free_count n (put u i false) ≡ suc (free_count n u)
unfolding free_count
free_count-release zero u i lt used = absurd (omega arith)
free_count-release (suc n) u i lt used = elim (Bool-cases (i == n)) [
  | inl last ↦
      let e : i ≡ n = ground arith in
      let here : u n ≡ true = ap u (sym e) ∙ used in
      rw (last, here, free_count-put_beyond n u i false (omega arith)) refl
  | inr other ↦
      let below = free_count-release n u i (ground arith) used in
      rw other (elim (Bool-cases (u n)) [
        | inl in_use ↦ rw in_use below
        | inr here ↦ rw here (ap suc below)
      ])
]

-- one page at a time
pub filled-put :
    (u : ℕ → Bool) (j n : ℕ) (b : Bool) (i : ℕ)
    → filled (put u j b) (suc j) n b i ≡ filled u j (suc n) b i
filled-put u j n b i = ground arith

-- as many free pages taken as are in a run
pub free_count-filled :
    (total : ℕ) (u : ℕ → Bool) (j n : ℕ)
    → j + n ≤ total
    → ((i : ℕ) → i < n → u (j + i) ≡ false)
    → free_count total (filled u j n true) + n ≡ free_count total u
free_count-filled total u j zero le is_free =
    omega (arith, free_count-ext total (filled u j 0 true) u (λ i lt. ground arith))
free_count-filled total u j (suc n) le is_free =
    let zeroth : j + 0 ≡ j = omega arith in
    let first = free_count-take total u j (omega arith) (rw zeroth at (is_free 0 (omega arith))) in
    let rest = free_count-filled total (put u j true) (suc j) n (omega arith) (λ i lt.
      let e : suc j + i ≡ j + suc i = omega arith in
      let other : (j == suc j + i) ≡ false = ground arith in
      rw (other, e) (is_free (suc i) (omega arith))) in
    omega (
      arith,
      first,
      rest,
      free_count-ext total (filled (put u j true) (suc j) n true) (filled u j (suc n) true)
          (λ i lt. filled-put u j n true i),
    )
