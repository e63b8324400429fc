-- ===== src/Alloc/Block/Init.antt =====
-- What `gmk_block_init` of src/alloc_block.c sets up.
use native.Mathlib.Nat.{pow-le-pow_right, div-le_self}
use ggmk.Base.{
  ==-zero_of_pos, ℕ, suc, ◌+◌, ◌-◌, ◌*◌, ◌/◌, ◌%◌, ◌^◌, ◌==◌, ◌≤◌, ◌<◌, ◌≡◌, ◌∙◌, refl, ap, ◌⊎◌,
  inl, inr, true, false, some, List, [], ◌∷◌, arith, ltb, lt→ltb, le→ltb, dec_lt, length,
  if◌then◌else◌,
}
use ggmk.Bits.{zero-lt-pow2}
use ggmk.Alloc.Bump.{align8}
use ggmk.Alloc.Bump.Regions.{align8_bounds, InOrder, InOrder-mono}
use ggmk.Alloc.Slab.{Slab}
use ggmk.Alloc.Slab.Init.{up, slab_init_lem}
use ggmk.Alloc.Block.{Block, init_bin, init_bins, bin_memory, init, weights}
use ggmk.Alloc.Block.Bins.{HasBin, HasBins}

-- The objects of 32 * 2 ^ i bytes need no alignment.
align8-bin : (i : ℕ) → i < 12 → align8 (32 * 2 ^ i) ≡ 32 * 2 ^ i
align8-bin i lt =
    let top = pow-le-pow_right {n = 2} (omega arith) {i = i} {j = 11} (omega arith) in
    let (above, below, multiple) = align8_bounds (32 * 2 ^ i) (omega arith) in omega arith

-- The bin is set up in its memory, which holds its objects and their list.
init_bin-HasBin :
    (i p m : ℕ)
    → i < 12
    → m < 2 ^ 31
    → (is : List ℕ) × HasBin i (init_bin i p m) is
      × (((init_bin i p m).capacity ≡ 0)
          ⊎ (((init_bin i p m).base ≡ p)
              × ((init_bin i p m).capacity * (init_bin i p m).obj_size ≤ m)))
unfolding init_bin
init_bin-HasBin i p m lt small =
    let top = pow-le-pow_right {n = 2} (omega arith) {i = i} {j = 11} (omega arith) in
    let some_bits = zero-lt-pow2 i in
    let same = align8-bin i lt in
    elim (dec_lt m (32 * 2 ^ i + 4)) [
      | yes little ↦ rw (same, lt→ltb m (32 * 2 ^ i + 4) little) ([], inl (refl, refl), inl refl)
      | no enough ↦
          let few : m / (align8 (32 * 2 ^ i) + 4) < 2 ^ 31 =
            omega (arith, div-le_self m (align8 (32 * 2 ^ i) + 4)) in
          let (s, done, free, pos, fresh, at, size, fits) =
            slab_init_lem p m (32 * 2 ^ i) (omega arith) (omega arith) (omega arith) few in
          rw (le→ltb m (align8 (32 * 2 ^ i) + 4) (omega arith), done)
            (up s.capacity 0, inr (pos, size ∙ same, free), inr (at, omega arith))
    ]

-- the objects of each bin that has any, as address and size
unfoldable pub regions : List Slab → List (ℕ × ℕ)
regions [] = []
regions (s ∷ bins) =
    if s.capacity == 0 then regions bins else (s.base, s.capacity * s.obj_size) ∷ regions bins

bin_memory-le : (n weight i remaining : ℕ) → bin_memory n weight i remaining ≤ remaining
bin_memory-le n weight i remaining =
    share_le (if i == 11 then remaining else n * weight % 2 ^ 64 / 60)
  where
    share_le : (share : ℕ) → (if ltb remaining share then remaining else share) ≤ remaining
    share_le share = ground arith

-- A bin in the first `m` bytes leaves the rest to the others.
regions-InOrder :
    (s : Slab) (bins : List Slab) (p m left : ℕ)
    → (s.capacity ≡ 0) ⊎ ((s.base ≡ p) × (s.capacity * s.obj_size ≤ m))
    → InOrder (p + m) (p + m + left) (regions bins)
    → InOrder p (p + (m + left)) (regions (s ∷ bins))
unfolding regions
regions-InOrder s bins p m left fits rest =
    let total : p + m + left ≡ p + (m + left) = omega arith in
    let rest' : InOrder (p + m) (p + (m + left)) (regions bins) = rw total at rest in
    elim (dec_lt 0 s.capacity) [
      | no lacks ↦
          let nothing : (s.capacity == 0) ≡ true = ground arith in
          rw nothing (InOrder-mono (p + m) p (p + (m + left)) (regions bins) (omega arith) rest')
      | yes pos ↦
          let more : (s.capacity == 0) ≡ false = ground arith in
          let (at, size) : (s.base ≡ p) × (s.capacity * s.obj_size ≤ m) = elim fits [
            | inl zero_cap ↦ absurd (omega arith)
            | inr f ↦ f
          ] in
          rw more (
            omega arith,
            omega arith,
            InOrder-mono (p + m) (s.base + s.capacity * s.obj_size) (p + (m + left)) (regions bins)
                (omega arith) rest',
          )
    ]

init_bins_lem :
    (n : ℕ) (ws : List ℕ) (i p remaining : ℕ)
    → i + length ws ≤ 12
    → remaining < 2 ^ 31
    → (free : List (List ℕ)) × HasBins i (init_bins n ws i p remaining) free
      × InOrder p (p + remaining) (regions (init_bins n ws i p remaining))
unfolding init_bins regions
init_bins_lem n [] i p remaining few small = ([], tt, tt)
init_bins_lem n (w ∷ ws) i p remaining few small =
    let m = bin_memory n w i remaining in
    let le = bin_memory-le n w i remaining in
    let (is, bin, fits) = init_bin-HasBin i p m (omega arith) (omega arith) in
    let (free, bins, order) =
      init_bins_lem n ws (suc i) (p + m) (remaining - m) (omega arith) (omega arith) in
    let total : m + (remaining - m) ≡ remaining = omega arith in
    (
      is ∷ free,
      (bin, bins),
      rw total at (
          regions-InOrder (init_bin i p m) (init_bins n ws (suc i) (p + m) (remaining - m)) p m
            (remaining - m) fits order),
    )

-- Over memory of less than 2 ^ 31 bytes, `gmk_block_init` sets up twelve bins, each with no object in
-- use, whose objects lie in the memory and do not overlap those of another bin.
pub block_init_lem :
    (mem n : ℕ)
    → 0 < n
    → n < 2 ^ 31
    → (b : Block) × (free : List (List ℕ)) × (init (some mem) n ≡ some b)
      × HasBins 0 b.bins free
      × (length b.bins ≡ 12)
      × InOrder mem (mem + n) (regions b.bins)
unfolding init
block_init_lem mem n pos small =
    let (free, bins, order) = init_bins_lem n weights 0 mem n (omega arith) small in
    let more = ==-zero_of_pos n pos in
    rw more (_, free, refl, bins, length-init_bins n weights 0 mem n, order)
  where
    length-init_bins :
        (n : ℕ) (ws : List ℕ) (i p remaining : ℕ)
        → length (init_bins n ws i p remaining) ≡ length ws
    length-init_bins n [] i p remaining = refl
    length-init_bins n (w ∷ ws) i p remaining = ap suc (
        length-init_bins n ws (suc i) (p + bin_memory n w i remaining)
          (remaining - bin_memory n w i remaining))
