-- ===== src/Machine/Pmm/Pages.antt =====
-- The bitmap of arch/x86_64/pmm.c as a predicate on pages.
use mathlib.Core.Option.{some-injective}
use ggmk.Base.{
  ℕ, ◌-◌, ◌/◌, ◌%◌, ◌^◌, ◌<◌, ◌≡◌, ◌≢◌, ◌∙◌, refl, ap, sym, Bool, true, false, some, none, List,
  arith, get_elem?, set, get_elem?-set_self, get_elem?-set_ne, get_elem?-lt, ◌==◌, if◌then◌else◌,
  bit_or, bit_and, Option-cases, Bool-cases, inl, inr,
}
use ggmk.Bits.Bit.{test, test-set, test-clear}
use ggmk.Machine.Pmm.{bitmap_set, bitmap_clear, bitmap_test}

-- The bits of the first `n` pages are as `u` says.
abbrev pub Marks : List ℕ → ℕ → (ℕ → Bool) → Type 0
Marks bitmap n u = (j : ℕ) → j < n → bitmap_test bitmap j ≡ some (u j)

-- the predicate with another value at one page
abbrev pub put : (ℕ → Bool) → ℕ → Bool → ℕ → Bool
put u i b j = if i == j then b else u j

word_at :
    (bitmap : List ℕ) (page : ℕ) (b : Bool)
    → bitmap_test bitmap page ≡ some b
    → (word : ℕ) × (get_elem? bitmap (page / 64) ≡ some word) × (test word (page % 64) ≡ b)
unfolding bitmap_test
word_at bitmap page b e = elim (Option-cases (get_elem? bitmap (page / 64))) [
  | inl out ↦ absurd (let e' : none ≡ some b = rw (bitmap_test, out) at e in cc)
  | inr (word, at) ↦
      (word, at, some-injective (test word (page % 64)) b (rw (bitmap_test, at) at e))
]

module _ (bitmap : List ℕ) (n : ℕ) (u : ℕ → Bool) (marks : Marks bitmap n u) (page : ℕ)
    (within : page < n) where
  -- one bit changed in its word
  put_lem :
      (f : ℕ → ℕ) (b : Bool)
      → ((word j : ℕ) → j < 64 → test (f word) j ≡ (if page % 64 == j then b else test word j))
      → (word : ℕ) × (get_elem? bitmap (page / 64) ≡ some word)
        × Marks (set bitmap (page / 64) (f word)) n (put u page b)
  unfolding bitmap_test
  put_lem f b bits =
      let (word, at, same) = word_at bitmap page (u page) (marks page within) in
      (
        word,
        at,
        λ j lt. elim (Bool-cases (page / 64 == j / 64)) [
          | inl same_word ↦
              let e : page / 64 ≡ j / 64 = ground arith in
              let (word', at', same') = word_at bitmap j (u j) (marks j lt) in
              let one : word' ≡ word =
                some-injective word' word (sym at' ∙ ap (λ i. get_elem? bitmap i) (sym e) ∙ at) in
              let new : get_elem? (set bitmap (page / 64) (f word)) (j / 64) ≡ some (f word) =
                rw (sym e) (
                  get_elem?-set_self bitmap (page / 64) (f word)
                    (get_elem?-lt bitmap (page / 64) word at)) in
              let value : test (f word) (j % 64) ≡ (if page % 64 == j % 64 then b else u j) =
                bits word (j % 64) (omega arith)
                ∙ ap (λ (t : Bool). if page % 64 == j % 64 then b else t)
                    (ap (λ w. test w (j % 64)) (sym one) ∙ same') in
              let bit : (page % 64 == j % 64) ≡ (page == j) = ground arith in
              rw (bitmap_test, new) (ap some (value ∙ ap (λ (t : Bool). if t then b else u j) bit))
          | inr other_word ↦
              let ne : page / 64 ≢ j / 64 = λ e. ground arith in
              let other : (page == j) ≡ false = ground arith in
              rw (bitmap_test, get_elem?-set_ne bitmap (f word) ne, other) (marks j lt)
        ],
      )

  pub bitmap_set_lem :
      (bitmap' : List ℕ) × (bitmap_set bitmap page ≡ some bitmap')
      × Marks bitmap' n (put u page true)
  unfolding bitmap_set
  bitmap_set_lem =
      let (word, at, marked) =
        put_lem (λ w. bit_or w (2 ^ (page % 64))) true
          (λ w j lt. test-set w (page % 64) j ∙ (ground arith)) in
      rw (bitmap_set, at) (_, refl, marked)

  pub bitmap_clear_lem :
      (bitmap' : List ℕ) × (bitmap_clear bitmap page ≡ some bitmap')
      × Marks bitmap' n (put u page false)
  unfolding bitmap_clear
  bitmap_clear_lem =
      let (word, at, marked) =
        put_lem (λ w. bit_and w (2 ^ 64 - 1 - 2 ^ (page % 64))) false
          (λ w j lt. test-clear w (page % 64) j (omega arith) lt ∙ (ground arith)) in
      rw (bitmap_clear, at) (_, refl, marked)
