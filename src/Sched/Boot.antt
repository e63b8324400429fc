-- ===== src/Sched/Boot.antt =====
-- src/sched.c: the scheduler set up for a number of workers, and taken down.
pub mod Ready
use ggmk.Base.{
  ℕ, zero, suc, ◌==◌, Bool, true, false, ◌||◌, Option, none, some, List, [], ◌∷◌, ltb,
  if◌then◌else◌, map, ◌>>=◌,
}
use ggmk.Mpmc
use ggmk.Sched.Lq
use ggmk.Sched.Lq.{Lq}
use ggmk.Sched.Rq
use ggmk.Sched.Evq
use ggmk.Sched.Enqueue.{Sched}
use ggmk.Task.{Task}

-- What the hardware layer returns: the pages of ring `i` for a number of bytes, and whether an array
-- is allocated.
pub record Memory : Type 0 where
  pub rq_pages : ℕ → ℕ → List (Mpmc.Cell Task)
  pub lq_array : Bool
  pub lq_pages : ℕ → ℕ → List Task
  pub evq_array : Bool
  pub overflow_pages : ℕ → List (Mpmc.Cell Task)

-- `GMK_RQ_DEFAULT_CAP`, `GMK_LQ_DEFAULT_CAP`, `GMK_EVQ_DEFAULT_CAP`, `GMK_OVERFLOW_CAP` and
-- `GMK_MAX_WORKERS`
abbrev pub rq_default_cap : ℕ
rq_default_cap = 4096

abbrev pub lq_default_cap : ℕ
lq_default_cap = 1024

abbrev pub evq_default_cap : ℕ
evq_default_cap = 65536

abbrev pub overflow_cap : ℕ
overflow_cap = 4096

abbrev pub max_workers : ℕ
max_workers = 32

-- The loop over the local queues from worker `i` on, with `n` to go.
pub init_lqs : ℕ → ℕ → (ℕ → ℕ → List Task) → Option (List Lq)
init_lqs zero i pages = some []
init_lqs (suc n) i pages =
    let rest = init_lqs n (suc i) pages in
    Lq.init lq_default_cap (pages i) >>= λ lq. (rest >>= λ lqs. some (lq ∷ lqs))

-- `gmk_sched_init`: the scheduler, or `none` for -1, with what was set up destroyed.
unfoldable pub init : ℕ → Memory → Option Sched
unfolding init_lqs
init n_workers mem =
    let set_up : Option Sched = do
      rq ← Rq.init rq_default_cap mem.rq_pages
      lqs ← if mem.lq_array then init_lqs n_workers zero mem.lq_pages else none
      evq ← Evq.init evq_default_cap mem.evq_array
      overflow ← Mpmc.init overflow_cap Lq.task_size mem.overflow_pages
      some (record {
        rq = rq;
        lqs = lqs;
        evq = evq;
        overflow = overflow;
        n_workers = n_workers;
        next_seq = 0;
      })
    in if n_workers == 0 || ltb max_workers n_workers then none else set_up

-- `gmk_sched_destroy`; the local queues are freed with their array.
unfoldable pub destroy : Sched → Sched
destroy s = record s {
  rq = Rq.destroy s.rq;
  lqs = [];
  evq = Evq.destroy s.evq;
  overflow = (Mpmc.destroy s.overflow).0;
}
