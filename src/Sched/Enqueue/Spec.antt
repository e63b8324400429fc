-- ===== src/Sched/Enqueue/Spec.antt =====
-- What src/enqueue.c promises, of a scheduler that is lists of tasks: one list for each worker, the
-- lanes of the ready queue, and the overflow bucket.
use ggmk.Base.{
  ℕ, zero, suc, ◌%◌, Bool, true, false, Option, none, some, List, [], ◌∷◌, ◌++◌, ltb, if◌then◌else◌,
  length,
}
use ggmk.Rc.{Rc, ok, fail, err_yield_overflow, err_yield_limit}
use ggmk.Sched.Rq.Spec
use ggmk.Sched.Rq.Spec.{Lanes}
use ggmk.Task.{Task}

pub record Model : Type 0 where
  pub locals : List (List Task)
  pub lanes : Lanes Task
  pub bucket : List Task

-- The list of worker `i` takes the task if it is shorter than its mark.
unfoldable pub offer : List ℕ → List (List Task) → Task → ℕ → Bool × List (List Task)
offer [] locals task i = (false, locals)
offer (mark ∷ marks) [] task i = (false, [])
offer (mark ∷ marks) (xs ∷ locals) task zero =
    (ltb (length xs) mark, (if ltb (length xs) mark then xs ++ task ∷ [] else xs) ∷ locals)
offer (mark ∷ marks) (xs ∷ locals) task (suc i) =
    let (taken, locals') = offer marks locals task i in (taken, xs ∷ locals')

-- No worker takes nothing, nor does one that there is not.
abbrev pub offer_to : List ℕ → List (List Task) → Task → Option ℕ → Bool × List (List Task)
offer_to marks locals task none = (false, locals)
offer_to marks locals task (some i) = offer marks locals task i

-- to the ready queue, unless the worker took it
abbrev pub or_lane : List ℕ → Model → Task → Bool × List (List Task) → Rc × Model
or_lane caps m task (true, locals) = (ok, record m { locals = locals })
or_lane caps m task (false, locals) =
    let (rc, lanes) = Spec.push caps m.lanes task (task.flags % 4) in
    (rc, record m { locals = locals; lanes = lanes })

-- To the worker's list up to its mark, and otherwise to the lane of its priority.
abbrev pub enqueue : List ℕ → List ℕ → Model → Task → Option ℕ → Rc × Model
enqueue marks caps m task worker_id = or_lane caps m task (offer_to marks m.locals task worker_id)

-- to the bucket of `cap` slots, unless the worker took it
abbrev pub or_bucket : ℕ → Model → Task → Bool × List (List Task) → Rc × Model
or_bucket cap m task (true, locals) = (ok, record m { locals = locals })
or_bucket cap m task (false, locals) =
    if ltb (length m.bucket) cap
    then (ok, record m { locals = locals; bucket = m.bucket ++ task ∷ [] })
    else (fail err_yield_overflow, record m { locals = locals })

-- Above the limit it is refused; otherwise to the worker's list, and then to the bucket.
abbrev pub yield : List ℕ → ℕ → ℕ → Model → Task → Option ℕ → Rc × Model
yield marks cap limit m task worker_id =
    if ltb limit task.yield_count
    then (fail err_yield_limit, m)
    else or_bucket cap m task (offer_to marks m.locals task worker_id)
