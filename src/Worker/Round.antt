-- ===== src/Worker/Round.antt =====
-- A whole round of `gmk_worker_loop` of src/worker.c. The time stamps of the events are arguments, and
-- what other threads do while the worker waits comes between `park` and `unpark`.
use ggmk.Base.{ℕ, ◌==◌, Bool, true, false, Option, none, some, List, if◌then◌else◌, ◌>>=◌}
use ggmk.Rc.{Rc}
use ggmk.Task.{Task}
use ggmk.Trace.{Event, write_if}
use ggmk.Metrics.{inc_if}
use ggmk.Sched.Enqueue.{Sched}
use ggmk.Module.{World}
use ggmk.Worker.{gather}
use ggmk.Worker.Dispatch.{Rest, metered, dispatch_task}
use ggmk.Worker.Due.{evq_drain_limit, drain_due}
use ggmk.Worker.Pool.{Worker}

-- `GMK_METRIC_TASKS_DEQUEUED`, `GMK_METRIC_WORKER_PARKS`, `GMK_METRIC_WORKER_WAKES`
abbrev pub tasks_dequeued_metric : ℕ
tasks_dequeued_metric = 1

abbrev pub worker_parks_metric : ℕ
worker_parks_metric = 11

abbrev pub worker_wakes_metric : ℕ
worker_wakes_metric = 12

module _ {F : Type 0} where
  -- a metric of tenant 0 counted
  abbrev pub count_zero : World F Rest → ℕ → World F Rest
  count_zero world metric_id = record world {
    rest = record world.rest { metrics = inc_if world.rest.metrics 0 metric_id };
  }

  -- the worker before it waits
  unfoldable pub park : World F Rest → Worker → ℕ → Option (World F Rest × Worker)
  park world w now =
      let ev : Event = record {
        tsc = now;
        ev_type = 0x21;
        tenant = 0;
        type = 0;
        arg0 = w.id;
        arg1 = 0;
      } in
      let counted = count_zero world worker_parks_metric in
      write_if counted.mr.trace ev >>= λ trace.
      some (record counted { mr = record counted.mr { trace = trace } }, record w { parked = true })

  -- the worker after it has waited
  abbrev pub unpark : World F Rest × Worker → World F Rest × Worker
  unpark (world, w) = (count_zero world worker_wakes_metric, record w { parked = false })

  -- the scheduler changed
  abbrev pub with_sched : World F Rest → Sched → World F Rest
  with_sched world s = record world { rest = record world.rest { sched = s } }

  module _ (weak : List Bool) (call : F → World F Rest → Rc × World F Rest) where
    -- what follows the search for a task
    unfoldable pub after_gather :
        World F Rest → Worker → ℕ → ℕ → ℕ → Option Task × Sched → Option (World F Rest × Worker)
    unfolding park
    after_gather world w now later last (some task, s) =
        dispatch_task weak call
          (metered (record (with_sched world s) { task = task }) tasks_dequeued_metric) now later
          last
        >>= λ world'. some (world', w)
    after_gather world w now later last (none, s) =
        drain_due weak w.tick w.id evq_drain_limit 0 s >>= λ d.
        (let parked = park (with_sched world d.1) w now >>= λ r. some (unpark r) in
          if d.0 == 0 then parked else some (with_sched world d.1, w))

    -- a round of the loop of `gmk_worker_loop`
    unfoldable pub round : World F Rest → Worker → ℕ → ℕ → ℕ → Option (World F Rest × Worker)
    unfolding after_gather
    round world w now later last =
        gather weak world.rest.sched w.id >>= λ r. after_gather world w now later last r
