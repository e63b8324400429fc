-- ===== src/Sched/Lq.antt =====
-- src/sched_lq.c: the local queue of a worker, a single-producer ring of which a normal push leaves a
-- part to yields.
pub mod Reserve
use ggmk.Base.{ℕ, ◌*◌, ◌/◌, ◌%◌, Option, none, some, List, u32_mod, sub32, leb, if◌then◌else◌}
use ggmk.Rc.{Rc, minus_one}
use ggmk.Spsc
use ggmk.Task.{Task}

-- `gmk_lq_t`
pub record Lq : Type 0 where
  pub ring : Spsc.Ring Task
  pub yield_watermark : ℕ
  pub cap : ℕ

-- `sizeof(gmk_task_t)`
abbrev pub task_size : ℕ
task_size = 48

-- `cap - cap * GMK_LQ_YIELD_RESERVE_PCT / 100`
unfoldable pub watermark : ℕ → ℕ
watermark cap = sub32 cap (cap * 25 % u32_mod / 100)

-- `gmk_lq_init`: the queue, or `none` for -1.
unfoldable pub init : ℕ → (ℕ → List Task) → Option Lq
unfolding watermark Spsc.init
init cap page_alloc = elim (Spsc.init cap task_size page_alloc) [
  | none ↦ none
  | some ring ↦ some (record { ring = ring; yield_watermark = watermark cap; cap = cap })
]

-- `gmk_lq_destroy`
unfoldable pub destroy : Lq → Lq × Option ℕ
unfolding Spsc.destroy
destroy lq = let (ring, freed) = Spsc.destroy lq.ring in (record lq { ring = ring }, freed)

-- `gmk_lq_push`
unfoldable pub push : Lq → Task → Rc × Lq
push lq task =
    if leb lq.yield_watermark (Spsc.count lq.ring)
    then (minus_one, lq)
    else let (rc, ring) = Spsc.push lq.ring task in (rc, record lq { ring = ring })

-- `gmk_lq_push_yield`
unfoldable pub push_yield : Lq → Task → Rc × Lq
push_yield lq task = let (rc, ring) = Spsc.push lq.ring task in (rc, record lq { ring = ring })

-- `gmk_lq_pop`
unfoldable pub pop : Lq → Rc × Option Task × Lq
pop lq = let (rc, out, ring) = Spsc.pop lq.ring in (rc, out, record lq { ring = ring })

-- `gmk_lq_count`
unfoldable pub count : Lq → ℕ
count lq = Spsc.count lq.ring
