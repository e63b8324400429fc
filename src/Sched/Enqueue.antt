-- ===== src/Sched/Enqueue.antt =====
-- src/enqueue.c: how a task gets into the scheduler, newly or again by a yield. `weak` says which
-- compare-and-swaps fail spuriously, as for the rings, and `none` is a call that does not return or
-- reads beyond the array of local queues. A worker's id is `none` when it is negative.
pub mod Spec
pub mod Route
pub mod Refine
pub mod Keeps
use ggmk.Base.{
  ℕ, ◌+◌, ◌%◌, ◌^◌, Bool, true, false, Option, none, some, List, add32, ltb, ◌==◌, if◌then◌else◌,
  get_elem?, set,
}
use ggmk.Rc.{Rc, ok, fail, is_ok, err_yield_overflow, err_yield_limit}
use ggmk.Mpmc
use ggmk.Sched.Lq
use ggmk.Sched.Lq.{Lq}
use ggmk.Sched.Rq
use ggmk.Sched.Rq.{Rq}
use ggmk.Sched.Evq.{Evq}
use ggmk.Task.{Task}

-- `struct gmk_sched`
pub record Sched : Type 0 where
  pub rq : Rq
  pub lqs : List Lq
  pub evq : Evq
  pub overflow : Mpmc.Ring Task
  pub n_workers : ℕ
  pub next_seq : ℕ

-- `GMK_DEFAULT_MAX_YIELDS`
abbrev pub default_max_yields : ℕ
default_max_yields = 16

-- The try of a worker's local queue: whether it took the task.
unfoldable pub try_lq : (Lq → Task → Rc × Lq) → Sched → Task → Option ℕ → Option (Bool × Sched)
try_lq push s task none = some (false, s)
try_lq push s task (some worker_id) =
    if ltb worker_id s.n_workers
    then elim (get_elem? s.lqs worker_id) [
      | none ↦ none
      | some lq ↦
          let (rc, lq') = push lq task in
          some (is_ok rc, record s { lqs = set s.lqs worker_id lq' })
    ]
    else some (false, s)

-- the task with its sequence number
abbrev pub stamped : Sched → Task → Task
stamped s task = record task { seq = s.next_seq }

-- the task with its yield counted
abbrev pub yielded : Task → Task
yielded task = record task { yield_count = (task.yield_count + 1) % 2 ^ 16 }

-- the limit of yields, the default for 0
unfoldable pub limit : ℕ → ℕ
limit max_yields = if max_yields == 0 then default_max_yields else max_yields

module _ (weak : List Bool) where
  -- the part of `_gmk_enqueue` after the local queue
  abbrev pub to_rq : Task → Option (Bool × Sched) → Option (Rc × Task × Sched)
  to_rq task none = none
  to_rq task (some (true, s)) = some (ok, task, s)
  to_rq task (some (false, s)) = elim (Rq.push weak s.rq task) [
    | none ↦ none
    | some (rc, rq) ↦ some (rc, task, record s { rq = rq })
  ]

  -- `_gmk_enqueue`: the result, the task with its number, and the scheduler.
  unfoldable pub enqueue : Sched → Task → Option ℕ → Option (Rc × Task × Sched)
  enqueue s task worker_id =
      to_rq (stamped s task)
        (try_lq Lq.push (record s { next_seq = add32 s.next_seq 1 }) (stamped s task) worker_id)

  -- the part of `_gmk_yield` after the local queue
  abbrev pub to_overflow : Task → Option (Bool × Sched) → Option (Rc × Task × Sched)
  to_overflow task none = none
  to_overflow task (some (true, s)) = some (ok, task, s)
  to_overflow task (some (false, s)) = elim (Mpmc.push weak s.overflow task) [
    | none ↦ none
    | some (rc, ring) ↦
        some (if is_ok rc then ok else fail err_yield_overflow, task, record s { overflow = ring })
  ]

  -- `_gmk_yield`
  unfoldable pub yield : Sched → Task → Option ℕ → ℕ → Option (Rc × Task × Sched)
  unfolding limit
  yield s task worker_id max_yields =
      if ltb (limit max_yields) (yielded task).yield_count
      then some (fail err_yield_limit, yielded task, s)
      else to_overflow (yielded task) (try_lq Lq.push_yield s (yielded task) worker_id)

  abbrev forget : Option (Rc × Task × Sched) → Option (Task × Sched)
  forget none = none
  forget (some (rc, task, s)) = some (task, s)

  -- `gmk_yield_impl`
  unfoldable pub yield_impl : Sched → Task → Option ℕ → Option (Task × Sched)
  yield_impl s task worker_id = forget (yield s task worker_id default_max_yields)

  -- `gmk_yield_at_impl`
  unfoldable pub yield_at_impl : Sched → Task → Option ℕ → ℕ → Option (Task × Sched)
  yield_at_impl s task worker_id phase =
      forget (yield s (record task { meta0 = phase }) worker_id default_max_yields)
