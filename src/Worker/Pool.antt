-- ===== src/Worker/Pool.antt =====
-- The pool of src/worker.c. The results of the calls that create threads are an argument; the calls that wake a thread are a result,
-- by the workers' ids. Which workers are parked is taken to stay during a call. Waiting for a thread to end is not modelled.
use ggmk.Base.{
  ℕ, zero, suc, ◌==◌, Bool, true, false, Option, none, some, List, [], ◌∷◌, ◌++◌, map,
  if◌then◌else◌,
}
use ggmk.Rc.{Rc, ok, minus_one}

-- `gmk_worker_t` without its thread and its pointers
pub record Worker : Type 0 where
  pub id : ℕ
  pub running : Bool
  pub parked : Bool
  pub tasks_dispatched : ℕ
  pub tick : ℕ

-- the loop of `gmk_worker_pool_init` over `n` workers from worker `i` on
pub init_workers : ℕ → ℕ → List Worker
init_workers zero i = []
init_workers (suc n) i =
    (record { id = i; running = false; parked = false; tasks_dispatched = 0; tick = 0 })
    ∷ init_workers n (suc i)

-- `gmk_worker_pool_init` with the scheduler and the modules; `given` says that the memory is there
unfoldable pub pool_init : ℕ → Bool → Option (List Worker)
unfolding init_workers
pool_init n_workers given =
    if n_workers == 0 then none else if given then some (init_workers n_workers 0) else none

-- `gmk_worker_wake`
abbrev pub wake : Worker → List ℕ
wake w = if w.parked then w.id ∷ [] else []

-- `gmk_worker_wake_all`
unfoldable pub wake_all : List Worker → List ℕ
wake_all [] = []
wake_all (w ∷ workers) = wake w ++ wake_all workers

-- the worker told to run, and to stop
abbrev pub started : Worker → Worker
started w = record w { running = true }

abbrev pub stopped : Worker → Worker
stopped w = record w { running = false }

-- The loop of `gmk_worker_pool_start`, with the workers that it has started.
unfoldable pub start_from : (ℕ → Bool) → List Worker → List Worker → Rc × List Worker × List ℕ
unfolding wake_all
start_from created before [] = (ok, before, [])
start_from created before (w ∷ workers) =
    let rest = start_from created (before ++ started w ∷ []) workers in
    if created w.id
    then rest
    else (minus_one, map stopped before ++ started w ∷ workers, wake_all before)

-- `gmk_worker_pool_start`
unfoldable pub pool_start : (ℕ → Bool) → List Worker → Rc × List Worker × List ℕ
unfolding start_from
pool_start created workers = start_from created [] workers

-- `gmk_worker_pool_stop`
unfoldable pub pool_stop : List Worker → List Worker × List ℕ
unfolding wake_all
pool_stop workers = (map stopped workers, wake_all workers)

-- `gmk_worker_pool_destroy`
abbrev pub pool_destroy : Option (List Worker) → Option (List Worker)
pool_destroy workers = none
