-- ===== src/Boot.antt =====
-- src/boot.c: a task handed to the kernel from outside, and the clock.
pub mod Submit
mod Tests
use ggmk.Base.{
  ℕ, ◌+◌, ◌%◌, ◌^◌, Bool, true, false, Option, none, some, List, [], ◌∷◌, ◌++◌, map, if◌then◌else◌,
  ◌>>=◌, add32,
}
use ggmk.Rc.{Rc, ok, retry, fail}
use ggmk.Metrics.{Metrics, inc}
use ggmk.Sched.Enqueue.{Sched, enqueue}
use ggmk.Task.{Task}
use ggmk.Worker.Pool.{Worker}

-- what `gmk_submit` and `gmk_tick_advance` reach of `gmk_kernel_t`
pub record Kernel : Type 0 where
  pub running : Bool
  pub tick : ℕ
  pub sched : Sched
  pub metrics : Metrics
  pub workers : List Worker

-- the loop of `gmk_submit` that wakes the first worker that is parked
unfoldable pub wake_one : List Worker → List ℕ
wake_one [] = []
wake_one (w ∷ workers) = if w.parked then w.id ∷ [] else wake_one workers

module _ (weak : List Bool) where
  -- what follows the try to enqueue
  abbrev pub after_submit : Kernel → Rc × Task × Sched → Rc × Task × Kernel × List ℕ
  after_submit k (ok, task, sched) = (
    ok,
    task,
    record k { sched = sched; metrics = inc k.metrics task.tenant 0 1 },
    wake_one k.workers,
  )
  after_submit k (retry, task, sched) = (retry, task, record k { sched = sched }, [])
  after_submit k (fail code, task, sched) = (fail code, task, record k { sched = sched }, [])

  -- `gmk_submit`
  unfoldable pub submit : Kernel → Task → Option (Rc × Task × Kernel × List ℕ)
  unfolding wake_one
  submit k task =
      let sent = enqueue weak k.sched task none >>= λ r. some (after_submit k r) in
      if k.running then sent else some (fail 7, task, k, [])

-- `gmk_tick_advance`
unfoldable pub tick_advance : Kernel → Kernel
tick_advance k = record k {
  tick = add32 k.tick 1;
  workers = map (λ (w : Worker). record w { tick = add32 k.tick 1 }) k.workers;
}
