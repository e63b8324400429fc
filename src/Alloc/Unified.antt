-- ===== src/Alloc/Unified.antt =====
-- src/alloc.c and src/alloc_arena.c: the arena, its division, the routing of a size or a pointer to the
-- allocator of a part, and payloads that count their references. The headers of the payloads are told
-- from their addresses.
pub mod Payload
pub mod Init
pub mod Tests
use ggmk.Base.{
  ℕ, zero, suc, ◌+◌, ◌-◌, ◌*◌, ◌/◌, ◌%◌, ◌^◌, ◌==◌, ◌&&◌, Bool, true, false, Option, none, some,
  add32, sub32, ltb, leb, if◌then◌else◌, ◌>>=◌,
}
use ggmk.Alloc.Bump
use ggmk.Alloc.Bump.{Bump}
use ggmk.Alloc.Slab
use ggmk.Alloc.Slab.{Slab}
use ggmk.Alloc.Block
use ggmk.Alloc.Block.{Block}

-- `gmk_arena_t`
pub record Arena : Type 0 where
  pub base : Option ℕ
  pub size : ℕ

-- `gmk_arena_init`, with the page that the hardware layer returns
unfoldable pub arena_init : Option ℕ → ℕ → Option Arena
arena_init none size = none
arena_init (some page) size =
    if size == 0 then none else some (record { base = some page; size = size })

-- `gmk_arena_destroy`
unfoldable pub arena_destroy : Arena → Arena
arena_destroy a = elim a.base [ none ↦ a | some page ↦ record { base = none; size = 0 } ]

-- `gmk_alloc_t`
pub record Alloc : Type 0 where
  pub arena : Arena
  pub task_slab : Slab
  pub trace_slab : Slab
  pub block : Block
  pub bump : Bump
  pub total_alloc_bytes : ℕ
  pub total_alloc_fails : ℕ

-- a percentage of the arena
abbrev pub percent : ℕ → ℕ → ℕ
percent arena_size part = arena_size * part % 2 ^ 64 / 100

-- `gmk_alloc_init`; on `none` the arena is returned.
unfoldable pub init : Option ℕ → ℕ → Option Alloc
unfolding arena_init
init page arena_size =
    let task_size = percent arena_size 10 in
    let trace_size = percent arena_size 2 in
    let bump_size = percent arena_size 20 in
    let block_size = arena_size - task_size - trace_size - bump_size in
    let set_up : Option Alloc = do
      arena ← arena_init page arena_size
      base ← arena.base
      task_slab ← Slab.init (some base) task_size 48
      trace_slab ← Slab.init (some (base + task_size)) trace_size 32
      block ← Block.init (some (base + task_size + trace_size)) block_size
      bump ← Bump.init (some (base + task_size + trace_size + block_size)) bump_size
      some (record {
        arena = arena;
        task_slab = task_slab;
        trace_slab = trace_slab;
        block = block;
        bump = bump;
        total_alloc_bytes = 0;
        total_alloc_fails = 0;
      })
    in if ltb arena_size 4096 then none else set_up

-- `gmk_alloc_destroy`
unfoldable pub destroy : Alloc → Alloc
destroy a = record a {
  task_slab = Slab.destroy a.task_slab;
  trace_slab = Slab.destroy a.trace_slab;
  block = Block.destroy a.block;
  arena = arena_destroy a.arena;
}

-- the call of the block allocator
abbrev pub from_block : Alloc → ℕ → Option (Option ℕ × Alloc)
from_block a size = Block.alloc a.block size >>= λ r. some (r.0, record a { block = r.1 })

-- the task slab, and the block allocator if it has no object
abbrev pub or_block : Alloc → ℕ → Option ℕ × Slab → Option (Option ℕ × Alloc)
or_block a size (none, s) = from_block (record a { task_slab = s }) size
or_block a size (some p, s) = some (some p, record a { task_slab = s })

-- the routing of a size
unfoldable pub route : Alloc → ℕ → Option (Option ℕ × Alloc)
route a size =
    let blocks = from_block a size in
    let tasks = Slab.alloc a.task_slab >>= λ r. or_block a size r in
    if leb size 48
    then (if size == 48 then tasks else blocks)
    else if leb size 65536
    then blocks
    else some (none, a)

-- the counts of bytes and failures
abbrev pub count_alloc : ℕ → Option ℕ × Alloc → Option ℕ × Alloc
count_alloc size (none, a) =
    (none, record a { total_alloc_fails = (a.total_alloc_fails + 1) % 2 ^ 64 })
count_alloc size (some p, a) =
    (some p, record a { total_alloc_bytes = (a.total_alloc_bytes + size) % 2 ^ 64 })

-- `gmk_alloc`; the outer `none` is a read beyond the bins or a free list.
unfoldable pub alloc : Alloc → ℕ → Option (Option ℕ × Alloc)
unfolding route
alloc a size =
    let routed = route a size >>= λ r. some (count_alloc size r) in
    if size == 0 then some (none, a) else routed

-- the address lies in the memory of a part
abbrev pub lies_in : ℕ → ℕ → ℕ → Bool
lies_in p base total_size = leb base p && ltb p (base + total_size)

-- `gmk_free`
unfoldable pub free : Alloc → ℕ → ℕ → Option Alloc
free a p size =
    let to_block = Block.free a.block p size >>= λ b. some (record a { block = b }) in
    if size == 0
    then some a
    else if lies_in p a.task_slab.base a.task_slab.total_size
    then some (record a { task_slab = Slab.free a.task_slab p })
    else if lies_in p a.trace_slab.base a.trace_slab.total_size
    then some (record a { trace_slab = Slab.free a.trace_slab p })
    else if lies_in p a.block.base a.block.total_size
    then to_block
    else some a

-- `gmk_bump`
unfoldable pub bump : Alloc → ℕ → Option ℕ × Alloc
bump a size = let (p, b) = Bump.alloc a.bump size in (p, record a { bump = b })

-- `gmk_bump_reset_all`
unfoldable pub bump_reset_all : Alloc → Alloc
bump_reset_all a = record a { bump = Bump.reset a.bump }

-- `gmk_payload_hdr_t`
pub record Header : Type 0 where
  pub refcount : ℕ
  pub size : ℕ

-- the headers of the payloads, by address
abbrev pub Headers : Type 0
Headers = ℕ → Header

-- one header replaced
unfoldable pub with_header : Headers → ℕ → Header → Headers
with_header headers at h = λ p. if p == at then h else headers p

-- the payload behind its header
abbrev pub headed : Headers → ℕ → Option ℕ × Alloc → Option ℕ × Headers × Alloc
headed headers size (none, a) = (none, headers, a)
headed headers size (some mem, a) =
    (some (mem + 8), with_header headers mem (record { refcount = 1; size = size }), a)

-- `gmk_payload_alloc`
unfoldable pub payload_alloc : Headers → Alloc → ℕ → Option (Option ℕ × Headers × Alloc)
unfolding alloc with_header
payload_alloc headers a size =
    let allocated = alloc a (add32 8 size) >>= λ r. some (headed headers size r) in
    if size == 0 then some (none, headers, a) else allocated

-- `gmk_payload_retain` of a payload that is not NULL
unfoldable pub payload_retain : Headers → ℕ → Headers
unfolding with_header
payload_retain headers payload =
    let h = headers (payload - 8) in
    with_header headers (payload - 8) (record h { refcount = add32 h.refcount 1 })

-- `gmk_payload_release` of a payload that is not NULL; the first component says whether it is freed.
unfoldable pub payload_release : Headers → Alloc → ℕ → Option (Bool × Headers × Alloc)
unfolding with_header free
payload_release headers a payload =
    let h = headers (payload - 8) in
    let left = with_header headers (payload - 8) (record h { refcount = sub32 h.refcount 1 }) in
    let freed = free a (payload - 8) (add32 8 h.size) >>= λ a'. some (true, left, a') in
    if h.refcount == 1 then freed else some (false, left, a)
