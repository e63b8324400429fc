-- ===== src/Boot/Submit.antt =====
-- `gmk_submit` of src/boot.c.
use mathlib.Core.Path.{subst}
use ggmk.Base.{
  sym, ℕ, ◌≡◌, refl, Bool, true, Option, none, some, List, [], ◌∷◌, ◌++◌, ◌+◌, ◌%◌, ◌^◌, ltb, false,
  modify, Bool-cases, inl, inr, if◌then◌else◌, ◌>>=◌, ◌∙◌, ap,
}
use ggmk.Rc.{Rc, ok, retry, fail, is_ok}
use ggmk.Mpmc.Slots.{Lands}
use ggmk.Metrics.{Metrics, inc}
use ggmk.Sched.Rq.Push.{caps}
use ggmk.Sched.Enqueue.{Sched, stamped, enqueue}
use ggmk.Sched.Enqueue.Spec
use ggmk.Sched.Enqueue.Spec.{Model}
use ggmk.Sched.Enqueue.Route.{Holding}
use ggmk.Sched.Enqueue.Refine.{watermarks, enqueue_lem}
use ggmk.Task.{Task}
use ggmk.Worker.Pool.{Worker}
use ggmk.Boot.{Kernel, wake_one, after_submit, submit}

-- None of the workers is parked.
abbrev pub AllAwake : List Worker → Type 0
AllAwake [] = Unit {0}
AllAwake (w ∷ workers) = (w.parked ≡ false) × AllAwake workers

-- The first worker that is parked is woken, or there is none.
abbrev pub WakesFirst : List Worker → List ℕ → Type 0
WakesFirst workers [] = AllAwake workers
WakesFirst workers (id ∷ ids) =
    (before : List Worker) × (w : Worker) × (after : List Worker) × (workers ≡ before ++ w ∷ after)
    × AllAwake before
    × (w.parked ≡ true)
    × (id ≡ w.id)
    × (ids ≡ [])

WakesFirst-awake :
    (w : Worker) (workers : List Worker) (ids : List ℕ)
    → w.parked ≡ false
    → WakesFirst workers ids
    → WakesFirst (w ∷ workers) ids
WakesFirst-awake w workers [] awake all = (awake, all)
WakesFirst-awake w workers (id ∷ ids) awake (before, v, after, e, all, parked, named, last) =
    (w ∷ before, v, after, ap (λ ws. w ∷ ws) e, (awake, all), parked, named, last)

wake_one-WakesFirst : (workers : List Worker) → WakesFirst workers (wake_one workers)
unfolding wake_one
wake_one-WakesFirst [] = tt
wake_one-WakesFirst (w ∷ workers) = elim (Bool-cases w.parked) [
  | inl parked ↦
      let here : wake_one (w ∷ workers) ≡ w.id ∷ [] = rw parked refl in
      subst (λ ids. WakesFirst (w ∷ workers) ids) (sym here)
        ([], w, workers, refl, tt, parked, refl, refl)
  | inr awake ↦
      let later : wake_one (w ∷ workers) ≡ wake_one workers = rw awake refl in
      subst (λ ids. WakesFirst (w ∷ workers) ids) (sym later)
        (WakesFirst-awake w workers (wake_one workers) awake (wake_one-WakesFirst workers))
]

-- The first counter, of all tenants and of the one, is 1 larger, in 64 bits.
abbrev pub counted : Metrics → ℕ → Metrics
counted metrics tenant = record {
  global = modify metrics.global 0 (λ c. (c + 1) % 2 ^ 64);
  per_tenant =
      if ltb tenant metrics.n_tenants
      then modify metrics.per_tenant tenant (λ row. modify row 0 (λ c. (c + 1) % 2 ^ 64))
      else metrics.per_tenant;
  n_tenants = metrics.n_tenants;
}

inc-counted : (metrics : Metrics) (tenant : ℕ) → inc metrics tenant 0 1 ≡ counted metrics tenant
unfolding inc
inc-counted metrics tenant = elim (Bool-cases (ltb tenant metrics.n_tenants)) [
  | inl known ↦ rw known refl
  | inr unknown ↦ rw unknown refl
]

-- What `gmk_submit` returns and leaves, where the specification puts the task as `placed` says.
abbrev pub Submits : Option (Rc × Task × Kernel × List ℕ) → Kernel → Task → Rc × Model → Type 0
Submits result k task placed =
    (k' : Kernel) × (woken : List ℕ) × (result
      ≡ some (placed.0, task, k', if is_ok placed.0 then woken else []))
    × WakesFirst k.workers woken
    × Holding k'.sched placed.1
    × (k'.metrics ≡ (if is_ok placed.0 then counted k.metrics task.tenant else k.metrics))
    × (k'.workers ≡ k.workers)
    × (k'.running ≡ k.running)
    × (k'.tick ≡ k.tick)

after_submit-Submits :
    (weak : List Bool) (k : Kernel) (task : Task) (rc : Rc) (m : Model) (s : Sched)
    → Holding s m
    → Submits (some (after_submit weak k (rc, task, s))) k task (rc, m)
after_submit-Submits weak k task ok m s h = (
  _,
  wake_one k.workers,
  refl,
  wake_one-WakesFirst k.workers,
  h,
  inc-counted k.metrics task.tenant,
  refl,
  refl,
  refl,
)
after_submit-Submits weak k task retry m s h =
    (_, wake_one k.workers, refl, wake_one-WakesFirst k.workers, h, refl, refl, refl, refl)
after_submit-Submits weak k task (fail code) m s h =
    (_, wake_one k.workers, refl, wake_one-WakesFirst k.workers, h, refl, refl, refl, refl)

-- `gmk_submit` to a kernel that runs puts the task, with the next number of the scheduler, in the lane of its
-- priority, if that has room, with 0, and then counts it as enqueued, for all and for its tenant, and wakes the
-- first worker that is parked, if there is one; otherwise it returns -1 and no queue holds the task, nothing is
-- counted and no worker is woken; it returns if of each call on a ring one compare-and-swap does not fail
-- spuriously.
pub submit_lem :
    (weak : List Bool)
    → Lands weak
    → (k : Kernel) (m : Model) (task : Task) → k.running ≡ true
    → Holding k.sched m
    → Submits
        (submit weak k task)
        k
        (record task { seq = k.sched.next_seq })
        (Spec.enqueue
          (watermarks k.sched)
          (caps k.sched.rq)
          m
          (record task { seq = k.sched.next_seq })
          none)
unfolding submit
submit_lem weak lands k m task runs h =
    let (s, done, held) = enqueue_lem weak lands h task none in
    let call : submit weak k task ≡ some (after_submit weak k (_, stamped k.sched task, s)) =
      ap
        (λ (b : Bool).
          if b
          then (enqueue weak k.sched task none >>= λ r. some (after_submit weak k r))
          else some (fail 7, task, k, []))
        runs
      ∙ ap (λ (x : Option (Rc × Task × Sched)). x >>= λ r. some (after_submit weak k r)) done in
    rw call (after_submit-Submits weak k (stamped k.sched task) _ _ s held)
