-- ===== src/Alloc/Unified/Init.antt =====
-- `gmk_alloc_init` of src/alloc.c divides the arena.
use native.Mathlib.Nat.{div-le_self}
use ggmk.Base.{
  ℕ, ◌+◌, ◌-◌, ◌*◌, ◌^◌, ◌≤◌, ◌<◌, ◌≡◌, ◌∙◌, refl, some, List, ◌∷◌, arith, le→ltb, ==-zero_of_pos,
}
use ggmk.Alloc.Bump
use ggmk.Alloc.Bump.{Bump, align8}
use ggmk.Alloc.Bump.Regions.{InOrder, InOrder-mono}
use ggmk.Alloc.Slab
use ggmk.Alloc.Slab.{Slab}
use ggmk.Alloc.Slab.Free.{HasFree}
use ggmk.Alloc.Slab.Init.{up, slab_init_lem}
use ggmk.Alloc.Block.Bins.{HasBins}
use ggmk.Alloc.Block.Init.{regions, block_init_lem}
use ggmk.Alloc.Unified.{Alloc, init, percent, arena_init}

-- No object is in use, and the objects of the slabs, those of the bins and the memory of the bump
-- allocator lie in this order in the arena and do not overlap.
pub record IsDivided (page n : ℕ) (a : Alloc) : Type 0 where
  pub task_free : HasFree a.task_slab (up a.task_slab.capacity 0)
  pub task_some : 0 < a.task_slab.capacity
  pub task_size : a.task_slab.obj_size ≡ 48
  pub trace_free : HasFree a.trace_slab (up a.trace_slab.capacity 0)
  pub trace_some : 0 < a.trace_slab.capacity
  pub trace_size : a.trace_slab.obj_size ≡ 32
  pub bins : (free : List (List ℕ)) × HasBins 0 a.block.bins free
  pub order : InOrder page a.bump.base (
      (a.task_slab.base, a.task_slab.capacity * a.task_slab.obj_size)
      ∷ (a.trace_slab.base, a.trace_slab.capacity * a.trace_slab.obj_size)
      ∷ regions a.block.bins)
  pub bump_ends : a.bump.base + a.bump.size ≡ page + n
  pub bump_unused : a.bump.offset ≡ 0

-- what `gmk_slab_init` leaves in `size` bytes at `p`
record IsFresh (s : Slab) (p size obj_size : ℕ) : Type 0 where
  free : HasFree s (up s.capacity 0)
  some_objects : 0 < s.capacity
  at : s.base ≡ p
  object : s.obj_size ≡ obj_size
  fit : s.capacity * s.obj_size + s.capacity * 4 ≤ size

slab_init-IsFresh :
    (p size obj_size : ℕ)
    → 0 < obj_size
    → obj_size + 7 < 2 ^ 32
    → align8 obj_size ≡ obj_size
    → obj_size + 4 ≤ size
    → size < 2 ^ 31
    → (s : Slab) × (Slab.init (some p) size obj_size ≡ some s) × IsFresh s p size obj_size
slab_init-IsFresh p size obj_size pos word whole room small =
    let (s, done, free, some_objects, none_used, at, object, fit) =
      slab_init_lem p size obj_size pos word (rw whole room)
        (omega (arith, div-le_self size (align8 obj_size + 4))) in
    (
      s,
      done,
      record {
        free = free;
        some_objects = some_objects;
        at = at;
        object = object ∙ whole;
        fit = fit;
      },
    )

-- the order of the parts' objects
in_order :
    (page task trace hi : ℕ) (s s' : Slab) (rs : List (ℕ × ℕ))
    → IsFresh s page task 48
    → IsFresh s' (page + task) trace 32
    → InOrder (page + task + trace) hi rs
    → page + task + trace ≤ hi
    → InOrder page hi
        ((s.base, s.capacity * s.obj_size) ∷ (s'.base, s'.capacity * s'.obj_size) ∷ rs)
in_order page task trace hi s s' rs f f' order le = (
  omega (arith, f.at),
  omega (arith, f.at, f.fit),
  (
    omega (arith, f.at, f.fit, f'.at),
    omega (arith, f'.at, f'.fit),
    InOrder-mono (page + task + trace) (s'.base + s'.capacity * s'.obj_size) hi rs
        (omega (arith, f'.at, f'.fit)) order,
  ),
)

-- Over an arena of 4096 bytes at least and fewer than 2 ^ 31, `gmk_alloc_init` sets up the two slabs, the
-- bins and the bump allocator, with no object in use, and their memory does not overlap.
pub alloc_init_lem :
    (page n : ℕ)
    → 4096 ≤ n
    → n < 2 ^ 31
    → (a : Alloc) × (init (some page) n ≡ some a) × IsDivided page n a
unfolding init arena_init align8 Bump.init
alloc_init_lem page n least small =
    let task = percent n 10 in
    let trace = percent n 2 in
    let bump = percent n 20 in
    let block = n - task - trace - bump in
    let (s, done, f) =
      slab_init-IsFresh page task 48 (omega arith) (omega arith) refl (omega arith) (omega arith) in
    let (s', done', f') =
      slab_init-IsFresh (page + task) trace 32 (omega arith) (omega arith) refl (omega arith)
        (omega arith) in
    let (b, frees, made, bins, twelve, order) =
      block_init_lem (page + task + trace) block (omega arith) (omega arith) in
    let a : Alloc = record {
      arena = record { base = some page; size = n };
      task_slab = s;
      trace_slab = s';
      block = b;
      bump = record { base = page + task + trace + block; size = bump; offset = 0; high_water = 0 };
      total_alloc_bytes = 0;
      total_alloc_fails = 0;
    } in
    rw
      (
        init,
        le→ltb n 4096 least,
        ==-zero_of_pos n (omega arith),
        done,
        done',
        made,
        ==-zero_of_pos bump (omega arith),
      )
      (
        a,
        refl,
        record {
          task_free = f.free;
          task_some = f.some_objects;
          task_size = f.object;
          trace_free = f'.free;
          trace_some = f'.some_objects;
          trace_size = f'.object;
          bins = (frees, bins);
          order =
              in_order page task trace (page + task + trace + block) s s' (regions b.bins) f f'
                order (omega arith);
          bump_ends = omega arith;
          bump_unused = refl;
        },
      )
