-- ===== src/Worker/Dispatch.antt =====
-- `worker_dispatch_task` of src/worker.c: a task is dispatched to its handler, and then its payload is
-- released, or it is enqueued again, or its failure is recorded.
use ggmk.Base.{
  ℕ, ◌+◌, ◌%◌, ◌^◌, ◌==◌, ◌||◌, Bool, Option, none, some, List, bit_and, if◌then◌else◌, ◌>>=◌,
}
use ggmk.Rc.{Rc, ok, retry, fail}
use ggmk.Metrics.{Metrics, inc_if}
use ggmk.Alloc.Unified.{Alloc, Headers, payload_release}
use ggmk.Sched.Enqueue.{Sched, enqueue}
use ggmk.Module.{Registry, World, record_fail}
use ggmk.Module

-- what a worker reaches beside the registry of modules, its trace and the task
pub record Rest : Type 0 where
  pub sched : Sched
  pub metrics : Option Metrics
  pub alloc : Alloc
  pub headers : Headers
  pub tasks_dispatched : ℕ

-- `GMK_METRIC_TASKS_DISPATCHED`, `GMK_METRIC_TASKS_FAILED`, `GMK_METRIC_TASKS_RETRIED`
abbrev pub tasks_dispatched_metric : ℕ
tasks_dispatched_metric = 2

abbrev pub tasks_failed_metric : ℕ
tasks_failed_metric = 3

abbrev pub tasks_retried_metric : ℕ
tasks_retried_metric = 4

module _ {F : Type 0} where
  -- a metric of the task's tenant counted
  abbrev pub metered : World F Rest → ℕ → World F Rest
  metered w metric_id = record w {
    rest = record w.rest { metrics = inc_if w.rest.metrics w.task.tenant metric_id };
  }

  -- the release of the task's payload, if it has one that counts references
  unfoldable pub release_payload : World F Rest → Option (World F Rest)
  release_payload w =
      let released = payload_release w.rest.headers w.rest.alloc w.task.payload_ptr >>= λ r.
      some (record w { rest = record w.rest { headers = r.1; alloc = r.2 } }) in
      if bit_and w.task.flags 0x40 == 0 || w.task.payload_ptr == 0 then some w else released

  module _ (weak : List Bool) where
    -- what follows the handler's result
    unfoldable pub conclude : Rc → World F Rest → ℕ → Option (World F Rest)
    unfolding release_payload
    conclude ok w now = release_payload (record w {
      rest = record w.rest { tasks_dispatched = (w.rest.tasks_dispatched + 1) % 2 ^ 64 };
    })
    conclude retry w now = enqueue weak w.rest.sched w.task none >>= λ r. some (
        metered (record w { task = r.1; rest = record w.rest { sched = r.2 } })
          tasks_retried_metric)
    conclude (fail code) w now = record_fail w.mr w.task.type now >>= λ mr.
        (release_payload (record w { mr = mr }) >>= λ w'. some (metered w' tasks_failed_metric))

    -- `worker_dispatch_task`, with the time stamps of the events
    unfoldable pub dispatch_task :
        (F → World F Rest → Rc × World F Rest) → World F Rest → ℕ → ℕ → ℕ → Option (World F Rest)
    unfolding conclude
    dispatch_task call w now later last =
        Module.dispatch call (metered w tasks_dispatched_metric) now later >>= λ r.
        conclude r.0 r.1 last
