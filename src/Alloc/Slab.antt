-- ===== src/Alloc/Slab.antt =====
-- src/alloc_slab.c: objects of one size with a list of the free ones, linked by index. The lock is
-- held through each change of the list. An index that the code reads as an `int32_t` is `none` when
-- it is negative, of which -1 ends the list; the outer `none` of an allocation is a read beyond the
-- list.
pub mod Free
pub mod Init
pub mod InUse
pub mod Client
use ggmk.Base.{
  ℕ, zero, suc, ◌+◌, ◌-◌, ◌*◌, ◌/◌, ◌%◌, ◌^◌, ◌==◌, Option, none, some, List, [], ◌∷◌, u32_mod,
  add32, sub32, ltb, leb, if◌then◌else◌, get_elem?, set, ◌>>=◌,
}
use ggmk.Alloc.Bump.{align8}

-- `gmk_slab_t` without its lock
pub record Slab : Type 0 where
  pub base : ℕ
  pub total_size : ℕ
  pub obj_size : ℕ
  pub capacity : ℕ
  pub alloc_count : ℕ
  pub high_water : ℕ
  pub free_list : List (Option ℕ)
  pub free_head : Option ℕ

-- `(int32_t)x` of a `uint32_t`
abbrev pub to_int32 : ℕ → Option ℕ
to_int32 x = if ltb x (2 ^ 31) then some x else none

-- The free list that `gmk_slab_init` writes from index `i` on, of `n` entries.
pub links : ℕ → ℕ → List (Option ℕ)
links zero i = []
links (suc n) i = (if n == 0 then none else to_int32 (i + 1)) ∷ links n (i + 1)

-- `gmk_slab_init`: the slab, or `none` for -1.
unfoldable pub init : Option ℕ → ℕ → ℕ → Option Slab
unfolding links align8
init none mem_size obj_size = none
init (some mem) mem_size obj_size =
    let aligned = align8 obj_size in
    let capacity = mem_size / (aligned + 4) % u32_mod in
    if obj_size == 0
    then none
    else if capacity == 0
    then none
    else some (record {
      base = mem;
      total_size = mem_size;
      obj_size = aligned;
      capacity = capacity;
      alloc_count = 0;
      high_water = 0;
      free_list = links capacity 0;
      free_head = some 0;
    })

-- `gmk_slab_destroy`
unfoldable pub destroy : Slab → Slab
destroy s = record s { base = 0 }

-- `gmk_slab_alloc` with this `free_head`
unfoldable pub alloc_from : Slab → Option ℕ → Option (Option ℕ × Slab)
alloc_from s none = some (none, s)
alloc_from s (some idx) = get_elem? s.free_list idx >>= λ next.
    (let count = add32 s.alloc_count 1 in
      some (
        some (s.base + idx * s.obj_size),
        record s {
          free_head = next;
          alloc_count = count;
          high_water = if ltb s.high_water count then count else s.high_water;
        },
      ))

-- `gmk_slab_alloc`: the object, and the slab.
unfoldable pub alloc : Slab → Option (Option ℕ × Slab)
unfolding alloc_from
alloc s = alloc_from s s.free_head

-- `gmk_slab_free`
unfoldable pub free : Slab → ℕ → Slab
free s p =
    let idx = (p - s.base) / s.obj_size % u32_mod in
    if ltb p s.base then s else if leb s.capacity idx then s else record s {
      free_list = set s.free_list idx s.free_head;
      free_head = to_int32 idx;
      alloc_count = sub32 s.alloc_count 1;
    }

-- `gmk_slab_used`
unfoldable pub used : Slab → ℕ
used s = s.alloc_count
