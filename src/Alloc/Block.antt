-- ===== src/Alloc/Block.antt =====
-- src/alloc_block.c: bins of objects of 32 to 65536 bytes, each bin a slab. `__builtin_ctz` is the
-- number of trailing zero bits.
pub mod Index
pub mod Bins
pub mod Init
use ggmk.Base.{
  ℕ, zero, suc, ◌+◌, ◌-◌, ◌*◌, ◌/◌, ◌%◌, ◌^◌, ◌==◌, Option, none, some, List, [], ◌∷◌, u32_mod, ltb,
  leb, if◌then◌else◌, get_elem?, set, map, ◌>>=◌,
}
use ggmk.Platform.{next_pow2}
use ggmk.Alloc.Bump.{align8}
use ggmk.Alloc.Slab
use ggmk.Alloc.Slab.{Slab}

-- `gmk_block_t`
pub record Block : Type 0 where
  pub bins : List Slab
  pub base : ℕ
  pub total_size : ℕ

-- The trailing zeros of a number of `k` bits.
pub ctz : ℕ → ℕ → ℕ
ctz zero x = 0
ctz (suc k) x = let rest = suc (ctz k (x / 2)) in if x % 2 == 1 then 0 else rest

-- `bin_index`, with `none` for -1
unfoldable pub bin_index : ℕ → Option ℕ
unfolding ctz
bin_index size =
    let bit = ctz 32 (next_pow2 size) in
    if leb size 32
    then some 0
    else if ltb 65536 size
    then none
    else if ltb bit 5
    then some 0
    else if leb 12 (bit - 5)
    then none
    else some (bit - 5)

-- the weights of the bins
abbrev pub weights : List ℕ
weights = 16 ∷ 12 ∷ 8 ∷ 6 ∷ 4 ∷ 2 ∷ 2 ∷ 2 ∷ 2 ∷ 2 ∷ 2 ∷ 2 ∷ []

abbrev pub total_weight : ℕ
total_weight = 60

-- a bin with no objects
abbrev pub empty_bin : Slab
empty_bin = record {
  base = 0;
  total_size = 0;
  obj_size = 0;
  capacity = 0;
  alloc_count = 0;
  high_water = 0;
  free_list = [];
  free_head = none;
}

-- the memory of a bin
abbrev pub bin_memory : ℕ → ℕ → ℕ → ℕ → ℕ
bin_memory mem_size weight i remaining =
    let share = if i == 11 then remaining else mem_size * weight % 2 ^ 64 / total_weight in
    if ltb remaining share then remaining else share

-- the slab of bin `i` in `bin_mem` bytes at `p`
unfoldable pub init_bin : ℕ → ℕ → ℕ → Slab
init_bin i p bin_mem =
    if ltb bin_mem (align8 (32 * 2 ^ i) + 4)
    then empty_bin
    else elim (Slab.init (some p) bin_mem (32 * 2 ^ i)) [ none ↦ empty_bin | some s ↦ s ]

-- the loop of `gmk_block_init` from bin `i` on
pub init_bins : ℕ → List ℕ → ℕ → ℕ → ℕ → List Slab
unfolding init_bin
init_bins mem_size [] i p remaining = []
init_bins mem_size (weight ∷ ws) i p remaining =
    let bin_mem = bin_memory mem_size weight i remaining in
    init_bin i p bin_mem ∷ init_bins mem_size ws (suc i) (p + bin_mem) (remaining - bin_mem)

-- `gmk_block_init`: the allocator, or `none` for -1.
unfoldable pub init : Option ℕ → ℕ → Option Block
unfolding init_bins
init none mem_size = none
init (some mem) mem_size =
    if mem_size == 0
    then none
    else some (record {
      bins = init_bins mem_size weights 0 mem mem_size;
      base = mem;
      total_size = mem_size;
    })

-- `gmk_block_destroy`
unfoldable pub destroy : Block → Block
destroy b = record b {
  bins = map (λ (s : Slab). if ltb 0 s.capacity then Slab.destroy s else s) b.bins;
  base = 0;
}

-- the allocation from bin `idx`
unfoldable pub alloc_from_bin : Block → ℕ → Option (Option ℕ × Block)
alloc_from_bin b idx = get_elem? b.bins idx >>= λ s.
    (let taken = Slab.alloc s >>= λ r. some (r.0, record b { bins = set b.bins idx r.1 }) in
      if s.capacity == 0 then some (none, b) else taken)

-- `gmk_block_alloc`; the outer `none` is a read beyond the bins or a free list.
unfoldable pub alloc : Block → ℕ → Option (Option ℕ × Block)
unfolding bin_index alloc_from_bin
alloc b size =
    if size == 0
    then some (none, b)
    else elim (bin_index size) [ none ↦ some (none, b) | some idx ↦ alloc_from_bin b idx ]

-- the release to bin `idx`
unfoldable pub free_to_bin : Block → ℕ → ℕ → Option Block
free_to_bin b p idx = get_elem? b.bins idx >>= λ s.
    some (if s.capacity == 0 then b else record b { bins = set b.bins idx (Slab.free s p) })

-- `gmk_block_free`
unfoldable pub free : Block → ℕ → ℕ → Option Block
unfolding bin_index free_to_bin
free b p size =
    if size == 0
    then some b
    else elim (bin_index size) [ none ↦ some b | some idx ↦ free_to_bin b p idx ]
