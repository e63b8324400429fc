-- ===== src/Worker.antt =====
-- src/worker.c: where a round of `gmk_worker_loop` finds its task. `weak` says which compare-and-swaps
-- fail spuriously, as for the rings; `none` is a call that does not return or reads beyond an array.
pub mod Gather
pub mod Dispatch
pub mod Due
pub mod Round
pub mod Pool
pub mod Start
mod Tests
use ggmk.Base.{ℕ, Bool, Option, none, some, List, get_elem?, set, ◌>>=◌}
use ggmk.Rc.{Rc, ok, retry, fail}
use ggmk.Mpmc
use ggmk.Sched.Lq
use ggmk.Sched.Rq
use ggmk.Sched.Enqueue.{Sched}
use ggmk.Task.{Task}

-- The task of a pop, if it returns 0.
abbrev pub got : Rc → Option Task → Sched → Option (Option Task × Sched)
got ok none s = none
got ok (some task) s = some (some task, s)
got retry out s = some (none, s)
got (fail code) out s = some (none, s)

-- the local queue of worker `id`
unfoldable pub from_lq : Sched → ℕ → Option (Option Task × Sched)
from_lq s id = get_elem? s.lqs id >>= λ lq.
    (let (rc, out, lq') = Lq.pop lq in got rc out (record s { lqs = set s.lqs id lq' }))

-- the next place, if no task has been found
abbrev pub unless_found :
    (Sched → Option (Option Task × Sched)) → Option Task × Sched → Option (Option Task × Sched)
unless_found next (some task, s) = some (some task, s)
unless_found next (none, s) = next s

module _ (weak : List Bool) where
  -- the overflow bucket
  unfoldable pub from_overflow : Sched → Option (Option Task × Sched)
  from_overflow s = Mpmc.pop weak s.overflow >>= λ r. got r.0 r.1 (record s { overflow = r.2 })

  -- the ready queue
  unfoldable pub from_rq : Sched → Option (Option Task × Sched)
  from_rq s = Rq.pop weak s.rq >>= λ r. got r.0 r.1 (record s { rq = r.2 })

  -- The first three steps of a round of worker `id`, without the dispatch that ends them.
  unfoldable pub gather : Sched → ℕ → Option (Option Task × Sched)
  unfolding from_lq from_overflow from_rq
  gather s id = (from_lq s id >>= λ r. unless_found from_overflow r) >>= λ r. unless_found from_rq r
