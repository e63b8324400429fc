-- ===== src/Alloc/Tests.antt =====
-- The theorems on the allocators, at concrete memory.
use ggmk.Base.{
  ℕ, ◌+◌, ◌*◌, ◌^◌, ◌≤◌, ◌<◌, ◌≡◌, refl, List, [], ◌∷◌, none, some, arith, inl, inr, length,
  get_elem?,
}
use ggmk.Bits.{IsPow2}
use ggmk.Platform.{next_pow2}
use ggmk.Platform.NextPow2.{next_pow2_lem}
use ggmk.Alloc.Bump
use ggmk.Alloc.Bump.{Bump, align8}
use ggmk.Alloc.Bump.Regions.{InOrder, allocs, allocs-InOrder}
use ggmk.Alloc.Bump.Overflow.{bump_alloc-wraps}
use ggmk.Alloc.Slab
use ggmk.Alloc.Slab.{Slab}
use ggmk.Alloc.Slab.Free.{HasFree}
use ggmk.Alloc.Slab.Init.{up, slab_init_lem}
use ggmk.Alloc.Slab.InUse.{Disjoint}
use ggmk.Alloc.Slab.Client.{Reach, here, next, given, AllWithin, slab_held-Disjoint}
use ggmk.Alloc.Block
use ggmk.Alloc.Block.{Block, bin_index}
use ggmk.Alloc.Block.Index.{bin_index_lem}
use ggmk.Alloc.Block.Bins.{HasBins, BinGiven, block_alloc_lem}
use ggmk.Alloc.Block.Init.{regions, block_init_lem}

next_pow2_lem_sample : IsPow2 (next_pow2 100) × (100 ≤ next_pow2 100) × (next_pow2 100 < 200)
next_pow2_lem_sample = next_pow2_lem 100 (omega arith) (omega arith)

-- a bump allocator with 16 of its 64 bytes given out
abbrev bump : Bump
bump = record { base = 4096; size = 64; offset = 16; high_water = 16 }

allocs_run : (allocs bump (9 ∷ 100 ∷ 24 ∷ [])).0 ≡ (4112, 9) ∷ (4128, 24) ∷ []
unfolding allocs Bump.alloc align8
allocs_run = refl

allocs-InOrder_example : InOrder 4112 4160 (allocs bump (9 ∷ 100 ∷ 24 ∷ [])).0
allocs-InOrder_example =
    allocs-InOrder bump (9 ∷ 100 ∷ 24 ∷ []) (record { within = omega arith; small = omega arith })
      (omega arith, (omega arith, (omega arith, tt)))

bump_alloc-wraps_sample :
    ((Bump.alloc bump 0xffff_fff0).0 ≡ some 4112)
    × (64 < 16 + 0xffff_fff0 + 8)
    × ((Bump.alloc bump 0xffff_fff0).1.offset < 16)
unfolding align8
bump_alloc-wraps_sample =
    bump_alloc-wraps bump 0xffff_fff0 (record { within = omega arith; small = omega arith })
      (omega arith) (omega arith) (omega arith)

-- two objects of 8 bytes
abbrev slab : Slab
slab = record {
  base = 4096;
  total_size = 24;
  obj_size = 8;
  capacity = 2;
  alloc_count = 0;
  high_water = 0;
  free_list = some 1 ∷ none ∷ [];
  free_head = some 0;
}

slab_init : Slab.init (some 4096) 24 5 ≡ some slab
unfolding Slab.init
slab_init = refl

slab_init_lem_sample :
    (s : Slab) × (Slab.init (some 4096) 24 5 ≡ some s)
    × HasFree s (up s.capacity 0)
    × (0 < s.capacity)
    × (s.alloc_count ≡ 0)
    × (s.base ≡ 4096)
    × (s.obj_size ≡ align8 5)
    × (s.capacity * s.obj_size + s.capacity * 4 ≤ 24)
unfolding align8
slab_init_lem_sample =
    slab_init_lem 4096 24 5 (omega arith) (omega arith) (omega arith) (omega arith)

slab-HasFree : HasFree slab (0 ∷ 1 ∷ [])
slab-HasFree = record {
  linked = (
    refl,
    omega arith,
    (λ m. elim m [ inl e ↦ absurd (omega arith) | inr n ↦ n ]),
    (some 1, refl, (refl, omega arith, (λ m. m), (none, refl, refl))),
  );
  sized = refl;
  small = omega arith;
  wide = omega arith;
  counted = refl;
}

-- both objects given, the first freed and given again
abbrev slab_one : Slab
slab_one = record slab { free_head = some 1; alloc_count = 1; high_water = 1 }

abbrev slab_two : Slab
slab_two = record slab { free_head = none; alloc_count = 2; high_water = 2 }

slab_run :
    Reach (record { slab = slab; held = [] }) (record { slab = slab_two; held = 4104 ∷ 4096 ∷ [] })
unfolding Slab.alloc
slab_run = next (next here (given 4096 slab_one refl)) (given 4104 slab_two refl)

slab_held-Disjoint_example :
    Disjoint 8 (4104 ∷ 4096 ∷ []) × AllWithin 4096 (4096 + 2 * 8) 8 (4104 ∷ 4096 ∷ [])
slab_held-Disjoint_example = slab_held-Disjoint slab-HasFree refl slab_run

bin_index_lem_sample :
    (i : ℕ) × (bin_index 100 ≡ some i) × (i < 12) × (100 ≤ 32 * 2 ^ i) × (0 < i → 32 * 2 ^ i < 200)
bin_index_lem_sample = bin_index_lem 100 (omega arith)

block_init_lem_sample :
    (b : Block) × (free : List (List ℕ)) × (Block.init (some 4096) 65536 ≡ some b)
    × HasBins 0 b.bins free
    × (length b.bins ≡ 12)
    × InOrder 4096 (4096 + 65536) (regions b.bins)
block_init_lem_sample = block_init_lem 4096 65536 (omega arith) (omega arith)

set_up :
    (b : Block) × (free : List (List ℕ)) × (Block.init (some 4096) 65536 ≡ some b)
    × HasBins 0 b.bins free
    × (length b.bins ≡ 12)
    × InOrder 4096 (4096 + 65536) (regions b.bins)
set_up = block_init_lem 4096 65536 (omega arith) (omega arith)

block_alloc_lem_example :
    (i : ℕ) × (s : Slab) × (is : List ℕ) × (get_elem? set_up.0.bins i ≡ some s)
    × (get_elem? set_up.1 i ≡ some is)
    × (100 ≤ 32 * 2 ^ i)
    × (0 < i → 32 * 2 ^ i < 200)
    × BinGiven set_up.0 set_up.1 i s is (Block.alloc set_up.0 100)
block_alloc_lem_example =
    block_alloc_lem set_up.0 set_up.1 100 set_up.3 set_up.4 (omega arith) (omega arith)
