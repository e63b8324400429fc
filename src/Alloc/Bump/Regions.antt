-- ===== src/Alloc/Bump/Regions.antt =====
-- The regions that src/alloc_bump.c hands out lie in its memory and do not overlap.
use ggmk.Base.{
  ℕ, ◌+◌, ◌%◌, ◌≤◌, ◌<◌, ◌≡◌, refl, List, [], ◌∷◌, Option, none, some, arith, u32_mod, add32, sub32,
  ◌==◌, Bool-cases, inl, inr, dec_lt, lt→ltb, le→ltb,
}
use ggmk.Bits.Wrap.{bit_and-align8}
use ggmk.Alloc.Bump.{Bump, align8, alloc, alloc_aligned}

pub record IsValid (b : Bump) : Type 0 where
  pub within : b.offset ≤ b.size
  pub small : b.size < u32_mod

-- `align8` rounds up to a multiple of 8, as long as the sum fits.
pub align8_bounds :
    (size : ℕ)
    → size + 7 < u32_mod
    → (size ≤ align8 size) × (align8 size < size + 8) × (align8 size % 8 ≡ 0)
unfolding align8
align8_bounds size h =
    let sum : add32 size 7 ≡ size + 7 = omega arith in
    rw (sum, bit_and-align8 (size + 7) h) (omega arith)

-- The calls with the sizes of a list, in order: the regions handed out, as address and size asked
-- for, and the allocator.
abbrev with_region : ℕ → Option ℕ → List (ℕ × ℕ) → List (ℕ × ℕ)
with_region size none regions = regions
with_region size (some p) regions = (p, size) ∷ regions

unfoldable pub allocs : Bump → List ℕ → List (ℕ × ℕ) × Bump
unfolding alloc
allocs b [] = ([], b)
allocs b (size ∷ sizes) =
    let (p, b') = alloc b size in
    let (regions, end) = allocs b' sizes in (with_region size p regions, end)

-- Each region lies between `lo` and `hi`, and behind those before it.
abbrev pub InOrder : ℕ → ℕ → List (ℕ × ℕ) → Type 0
InOrder lo hi [] = Unit
InOrder lo hi ((p, size) ∷ regions) = (lo ≤ p) × (p + size ≤ hi) × InOrder (p + size) hi regions

pub InOrder-mono :
    (lo lo' hi : ℕ) (regions : List (ℕ × ℕ))
    → lo' ≤ lo
    → InOrder lo hi regions
    → InOrder lo' hi regions
InOrder-mono lo lo' hi [] le h = tt
InOrder-mono lo lo' hi ((p, size) ∷ regions) le (a, b, c) = (omega arith, b, c)

-- A size that fits beside any offset takes the next region, and one that does not changes nothing.
abbrev Ends : Bump → ℕ → Option ℕ × Bump → Type 0
Ends b size (none, b') = b' ≡ b
Ends b size (some p, b') =
    (p ≡ b.base + b.offset)
    × (b.offset + size ≤ b'.offset)
    × (b'.offset ≤ b.size)
    × (b'.base ≡ b.base)
    × (b'.size ≡ b.size)

alloc_aligned-Ends :
    (b : Bump) (size aligned : ℕ)
    → IsValid b
    → size ≤ aligned
    → b.size + aligned < u32_mod
    → Ends b size (alloc_aligned b aligned)
alloc_aligned-Ends b size aligned v le h =
    let sum : add32 b.offset aligned ≡ b.offset + aligned = omega (arith, v.within) in
    let whole : b.size % u32_mod ≡ b.size = omega (arith, v.small) in
    let back : sub32 (b.offset + aligned) aligned ≡ b.offset = omega (arith, v.within, v.small) in
    elim (dec_lt b.size (b.offset + aligned)) [
      | yes full ↦ rw (whole, sum, lt→ltb b.size (b.offset + aligned) full, back) refl
      | no fits ↦
          rw (whole, sum, le→ltb b.size (b.offset + aligned) (omega arith))
            (refl, omega arith, omega arith, refl, refl)
    ]

alloc-Ends :
    (b : Bump) (size : ℕ) → IsValid b → b.size + size + 8 < u32_mod → Ends b size (alloc b size)
unfolding alloc
alloc-Ends b size v h = elim (Bool-cases (size == 0)) [
  | inl e ↦ rw e refl
  | inr ne ↦
      let (above, below, multiple) = align8_bounds size (omega arith) in
      rw ne (alloc_aligned-Ends b size (align8 size) v above (omega arith))
]

abbrev pub AllFit : Bump → List ℕ → Type 0
AllFit b [] = Unit
AllFit b (size ∷ sizes) = (b.size + size + 8 < u32_mod) × AllFit b sizes

AllFit-size : (b b' : Bump) (sizes : List ℕ) → b'.size ≡ b.size → AllFit b sizes → AllFit b' sizes
AllFit-size b b' [] e h = tt
AllFit-size b b' (size ∷ sizes) e (h, hs) = (omega arith, AllFit-size b b' sizes e hs)

allocs-InOrder_step :
    (b : Bump) (size : ℕ) (sizes : List ℕ) (r : Option ℕ × Bump)
    → IsValid b
    → AllFit b sizes
    → Ends b size r
    → ((b' : Bump)
        → IsValid b'
        → AllFit b' sizes
        → InOrder (b'.base + b'.offset) (b'.base + b'.size) (allocs b' sizes).0)
    → InOrder (b.base + b.offset) (b.base + b.size) (with_region size r.0 (allocs r.1 sizes).0)
allocs-InOrder_step b size sizes (none, b') v hs e rest = rw e (rest b v hs)
allocs-InOrder_step b size sizes (some p, b') v hs (at, above, below, same, same') rest =
    let v' : IsValid b' = record { within = omega arith; small = omega (arith, v.small) } in
    let tail = rest b' v' (AllFit-size b b' sizes same' hs) in
    let top : b'.base + b'.size ≡ b.base + b.size = omega arith in
    let tail' : InOrder (b'.base + b'.offset) (b.base + b.size) (allocs b' sizes).0 =
      rw top at tail in
    (
      omega arith,
      omega arith,
      InOrder-mono (b'.base + b'.offset) (p + size) (b.base + b.size) _ (omega arith) tail',
    )

-- The regions that calls of `gmk_bump_alloc` hand out, each as long as the size asked for, lie one
-- behind the other in what the memory has left, if no size wraps the sums of 32 bits.
pub allocs-InOrder :
    (b : Bump) (sizes : List ℕ)
    → IsValid b
    → AllFit b sizes
    → InOrder (b.base + b.offset) (b.base + b.size) (allocs b sizes).0
unfolding allocs
allocs-InOrder b [] v h = tt
allocs-InOrder b (size ∷ sizes) v (h, hs) =
    allocs-InOrder_step b size sizes (alloc b size) v hs (alloc-Ends b size v h)
      (λ b' v' h'. allocs-InOrder b' sizes v' h')
