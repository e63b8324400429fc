-- ===== src/Alloc/Block/Bins.antt =====
-- The bins of src/alloc_block.c: what `gmk_block_init` sets up, and where an allocation comes from.
use mathlib.Core.Option.{some-injective}
use ggmk.Base.{
  sym, ℕ, zero, suc, ◌+◌, ◌*◌, ◌^◌, ◌==◌, ◌≤◌, ◌<◌, ◌≡◌, refl, ap, ◌⊎◌, inl, inr, true, false, none,
  some, Option, List, [], ◌∷◌, arith, length, get_elem?, set,
}
use ggmk.Alloc.Slab.{Slab}
use ggmk.Alloc.Slab.Free.{HasFree, slab_alloc_lem}
use ggmk.Alloc.Block.{Block, alloc_from_bin, alloc}
use ggmk.Alloc.Block.Index.{bin_index_lem}

-- Bin `i` has no objects, or objects of 32 * 2 ^ i bytes, of which those of `is` are free.
abbrev pub HasBin : ℕ → Slab → List ℕ → Type 0
HasBin i s is =
    ((s.capacity ≡ 0) × (is ≡ [])) ⊎ ((0 < s.capacity) × (s.obj_size ≡ 32 * 2 ^ i) × HasFree s is)

-- the bins from bin `i` on
abbrev pub HasBins : ℕ → List Slab → List (List ℕ) → Type 0
HasBins i [] [] = Unit
HasBins i [] (is ∷ free) = ⊥
HasBins i (s ∷ bins) [] = ⊥
HasBins i (s ∷ bins) (is ∷ free) = HasBin i s is × HasBins (suc i) bins free

-- An index that the bins have is one that the lists have.
HasBins-get :
    (k : ℕ) (bins : List Slab) (free : List (List ℕ)) (i : ℕ)
    → HasBins k bins free
    → i < length bins
    → (s : Slab) × (is : List ℕ) × (get_elem? bins i ≡ some s)
      × (get_elem? free i ≡ some is)
      × HasBin (k + i) s is
HasBins-get k [] free i h lt = absurd (omega arith)
HasBins-get k (s ∷ bins) [] i h lt = elim h [ ]
HasBins-get k (s ∷ bins) (is ∷ free) zero (b, h) lt =
    let e : k + 0 ≡ k = omega arith in (s, is, refl, refl, rw e b)
HasBins-get k (s ∷ bins) (is ∷ free) (suc i) (b, h) lt =
    let (t, js, got, got', b') = HasBins-get (suc k) bins free i h (omega arith) in
    let e : k + suc i ≡ suc k + i = omega arith in (t, js, got, got', rw e b')

HasBins-set :
    (k : ℕ) (bins : List Slab) (free : List (List ℕ)) (i : ℕ) (s : Slab) (is : List ℕ)
    → HasBins k bins free
    → HasBin (k + i) s is
    → HasBins k (set bins i s) (set free i is)
HasBins-set k [] [] i s is h b = tt
HasBins-set k [] (js ∷ free) i s is h b = elim h [ ]
HasBins-set k (t ∷ bins) [] i s is h b = elim h [ ]
HasBins-set k (t ∷ bins) (js ∷ free) zero s is (_, h) b =
    let e : k + 0 ≡ k = omega arith in (rw e at b, h)
HasBins-set k (t ∷ bins) (js ∷ free) (suc i) s is (b', h) b =
    let e : k + suc i ≡ suc k + i = omega arith in
    (b', HasBins-set (suc k) bins free i s is h (rw e at b))

-- What an allocation from bin `i` gives, of the free objects there.
abbrev pub BinGiven : Block → List (List ℕ) → ℕ → Slab → List ℕ → Option (Option ℕ × Block) → Type 0
BinGiven b free i s [] r = r ≡ some (none, b)
BinGiven b free i s (j ∷ is) r =
    (b' : Block) × (r ≡ some (some (s.base + j * s.obj_size), b'))
    × HasBins 0 b'.bins (set free i is)
    × (s.obj_size ≡ 32 * 2 ^ i)

set-get_elem? :
    {A : Type 0} (xs : List A) (i : ℕ) {v : A} → get_elem? xs i ≡ some v → set xs i v ≡ xs
set-get_elem? [] i e = refl
set-get_elem? (x ∷ xs) zero e = ap (λ v. v ∷ xs) (sym (some-injective x _ e))
set-get_elem? (x ∷ xs) (suc i) e = ap (◌∷◌ x) (set-get_elem? xs i e)

module _ (b : Block) (free : List (List ℕ)) (h : HasBins 0 b.bins free) (i : ℕ) where
  slab-BinGiven :
      (s : Slab) (is : List ℕ)
      → get_elem? b.bins i ≡ some s
      → 0 < s.capacity
      → s.obj_size ≡ 32 * 2 ^ i
      → HasFree s is
      → BinGiven b free i s is (alloc_from_bin b i)
  unfolding alloc_from_bin
  slab-BinGiven s [] got pos size f =
      let more : (s.capacity == 0) ≡ false = ground arith in
      let same : record b { bins = set b.bins i s } ≡ b =
        ap (λ (bins : List Slab). record b { bins = bins }) (set-get_elem? b.bins i got) in
      rw (got, slab_alloc_lem s [] f, more, same) refl
  slab-BinGiven s (j ∷ is) got pos size f =
      let more : (s.capacity == 0) ≡ false = ground arith in
      let (t, done, f', out, counted, same) = slab_alloc_lem s (j ∷ is) f in
      let at : 0 + i ≡ i = omega arith in
      let bin : HasBin i t is = inr (omega (arith, same.2), omega (arith, same.1), f') in
      rw (got, done, more) (_, refl, HasBins-set 0 b.bins free i t is h (rw at bin), size)

  alloc_from_bin-BinGiven :
      (s : Slab) (is : List ℕ)
      → get_elem? b.bins i ≡ some s
      → HasBin i s is
      → BinGiven b free i s is (alloc_from_bin b i)
  unfolding alloc_from_bin
  alloc_from_bin-BinGiven s is got (inl (nothing, nil)) =
      let empty : (s.capacity == 0) ≡ true = ground arith in rw (nil, got, empty) refl
  alloc_from_bin-BinGiven s is got (inr (pos, size, f)) = slab-BinGiven s is got pos size f

-- `gmk_block_alloc` of 1 to 65536 bytes gives the first free object of the least bin whose objects
-- are large enough, which then is no longer free, and nothing, with no change, if that bin has none.
pub block_alloc_lem :
    (b : Block) (free : List (List ℕ)) (size : ℕ)
    → HasBins 0 b.bins free
    → length b.bins ≡ 12
    → 0 < size
    → size ≤ 65536
    → (i : ℕ) × (s : Slab) × (is : List ℕ) × (get_elem? b.bins i ≡ some s)
      × (get_elem? free i ≡ some is)
      × (size ≤ 32 * 2 ^ i)
      × (0 < i → 32 * 2 ^ i < 2 * size)
      × BinGiven b free i s is (alloc b size)
unfolding alloc
block_alloc_lem b free size h twelve pos hi =
    let (i, found, lt, above, below) = bin_index_lem size hi in
    let (s, is, got, got', bin) = HasBins-get 0 b.bins free i h (omega arith) in
    let at : 0 + i ≡ i = omega arith in
    let some_size : (size == 0) ≡ false = ground arith in
    rw (some_size, found)
      (
        i,
        s,
        is,
        got,
        got',
        above,
        below,
        alloc_from_bin-BinGiven b free h i s is got (rw at at bin),
      )
