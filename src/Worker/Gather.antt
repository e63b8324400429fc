-- ===== src/Worker/Gather.antt =====
-- The task that a worker of src/worker.c takes: of its own queue, then of the overflow bucket, then of
-- the ready queue.
use ggmk.Base.{
  ℕ, zero, suc, ◌<◌, ◌≡◌, ◌∙◌, refl, sym, Bool, Option, none, some, List, [], ◌∷◌, arith, get_elem?,
  set, length, length-set,
}
use ggmk.Rc.{Rc, ok, minus_one}
use ggmk.Mpmc
use ggmk.Mpmc.Holds.{Holds}
use ggmk.Mpmc.Slots.{Lands, Lands-ne}
use ggmk.Mpmc.Pop.{popped, pop-some, popped-Holds, pop-none}
use ggmk.Spsc
use ggmk.Spsc.Refine
use ggmk.Sched.Lq
use ggmk.Sched.Lq.{Lq}
use ggmk.Sched.Lq.Reserve.{Queued}
use ggmk.Sched.Rq.{weights}
use ggmk.Sched.Rq.Spec
use ggmk.Sched.Rq.Spec.{Lanes}
use ggmk.Sched.Rq.Lengths.{length-pop}
use ggmk.Sched.Rq.Refine.{Held-length, rq_pop_lem, reply}
use ggmk.Sched.Enqueue.{Sched}
use ggmk.Sched.Enqueue.Spec.{Model}
use ggmk.Sched.Enqueue.Route.{Holding, Locals}
use ggmk.Task.{Task}
use ggmk.Worker.{got, from_lq, from_overflow, from_rq, unless_found, gather}

-- the first task of a list, if there is one
abbrev pub take_first : List Task → Option Task × List Task
take_first [] = (none, [])
take_first (x ∷ xs) = (some x, xs)

-- the first task of list `i`
unfoldable pub take_local : List (List Task) → ℕ → Option Task × List (List Task)
take_local [] i = (none, [])
take_local (xs ∷ locals) zero = let (out, rest) = take_first xs in (out, rest ∷ locals)
take_local (xs ∷ locals) (suc i) = let (out, locals') = take_local locals i in (out, xs ∷ locals')

-- the first task of the bucket, unless one has been found
abbrev pub or_bucket : Option Task × Model → Option Task × Model
or_bucket (some task, m) = (some task, m)
or_bucket (none, m) = let (out, rest) = take_first m.bucket in (out, record m { bucket = rest })

-- the task that the lanes serve, unless one has been found
abbrev pub or_lanes : Option Task × Model → Option Task × Model
or_lanes (some task, m) = (some task, m)
or_lanes (none, m) =
    let (out, lanes) = Spec.pop weights m.lanes in (out, record m { lanes = lanes })

-- What a worker takes: of its list, then of the bucket, then of the lanes.
unfoldable pub take_task : Model → ℕ → Option Task × Model
unfolding take_local
take_task m id =
    let (out, locals) = take_local m.locals id in
    or_lanes (or_bucket (out, record m { locals = locals }))

-- how a step ends that may find a task
abbrev Finds : Option (Option Task × Sched) → Option Task × Model → Type 0
Finds result (out, m) = (s : Sched) × (result ≡ some (out, s)) × Holding s m

first-Popped :
    (lq : Lq) (xs : List Task)
    → Queued lq xs
    → (lq' : Lq) × (rc : Rc) × (Lq.pop lq ≡ (rc, (take_first xs).0, lq'))
      × ((s : Sched) → got rc (take_first xs).0 s ≡ some ((take_first xs).0, s))
      × Queued lq' (take_first xs).1
unfolding Lq.pop
first-Popped lq [] q = (lq, minus_one, rw (Lq.pop, Refine.pop-empty q.holds) refl, (λ s. refl), q)
first-Popped lq (x ∷ xs) q =
    let (done, out, holds) = Refine.pop-Holds q.holds in
    let lq' : Lq = record lq { ring = (Spsc.pop lq.ring).2 } in
    (
      lq',
      ok,
      (λ i. (done i, out i, lq')),
      (λ s. refl),
      record { holds = holds; within = omega (arith, Refine.cap-pop lq.ring, q.within) },
    )

local-Popped :
    (lqs : List Lq) (locals : List (List Task)) (i : ℕ)
    → Locals lqs locals
    → i < length lqs
    → (lq lq' : Lq) × (rc : Rc) × (get_elem? lqs i ≡ some lq)
      × (Lq.pop lq ≡ (rc, (take_local locals i).0, lq'))
      × ((s : Sched) → got rc (take_local locals i).0 s ≡ some ((take_local locals i).0, s))
      × Locals (set lqs i lq') (take_local locals i).1
unfolding take_local
local-Popped [] locals i held lt = absurd (omega arith)
local-Popped (lq ∷ lqs) [] i held lt = elim held [ ]
local-Popped (lq ∷ lqs) (xs ∷ locals) zero (q, held) lt =
    let (lq', rc, done, finds, q') = first-Popped lq xs q in
    (lq, lq', rc, refl, done, finds, (q', held))
local-Popped (lq ∷ lqs) (xs ∷ locals) (suc i) (q, held) lt =
    let (at, at', rc, here, done, finds, held') = local-Popped lqs locals i held (omega arith) in
    (at, at', rc, here, done, finds, (q, held'))

from_lq-Finds :
    (s : Sched) (m : Model) (id : ℕ)
    → Holding s m
    → id < length s.lqs
    → Finds
        (from_lq s id)
        ((take_local m.locals id).0, record m { locals = (take_local m.locals id).1 })
unfolding from_lq
from_lq-Finds s m id h lt =
    let (lq, lq', rc, here, done, finds, held) = local-Popped s.lqs m.locals id h.local lt in
    let s' : Sched = record s { lqs = set s.lqs id lq' } in
    (
      s',
      rw (from_lq, here, done) (finds s'),
      record {
        ready = h.ready;
        four = h.four;
        local = held;
        workers = rw (length-set s.lqs id lq') h.workers;
        over = h.over;
      },
    )

module _ (weak : List Bool) (lands : Lands weak) where
  bucket-Popped :
      (ring : Mpmc.Ring Task) (xs : List Task)
      → Holds ring xs
      → (ring' : Mpmc.Ring Task) × (rc : Rc) × (Mpmc.pop weak ring
          ≡ some (rc, (take_first xs).0, ring'))
        × ((s : Sched) → got rc (take_first xs).0 s ≡ some ((take_first xs).0, s))
        × Holds ring' (take_first xs).1
  bucket-Popped ring [] h = (ring, minus_one, pop-none h weak (Lands-ne weak lands), (λ s. refl), h)
  bucket-Popped ring (x ∷ xs) h = (popped h, ok, pop-some h weak lands, (λ s. refl), popped-Holds h)

  overflow-Finds :
      (s : Sched) (out : Option Task) (m : Model)
      → Holding s m
      → Finds (unless_found (from_overflow weak) (out, s)) (or_bucket (out, m))
  unfolding from_overflow
  overflow-Finds s (some task) m h = (s, refl, h)
  overflow-Finds s none m h =
      let (ring, rc, done, finds, held) = bucket-Popped s.overflow m.bucket h.over in
      let s' : Sched = record s { overflow = ring } in
      (
        s',
        rw (from_overflow, done) (finds s'),
        record {
          ready = h.ready;
          four = h.four;
          local = h.local;
          workers = h.workers;
          over = held;
        },
      )

  reply-got : (out : Option Task) (s : Sched) → got (reply out).0 (reply out).1 s ≡ some (out, s)
  reply-got none s = refl
  reply-got (some task) s = refl

  rq-Finds :
      (s : Sched) (out : Option Task) (m : Model)
      → Holding s m
      → Finds (unless_found (from_rq weak) (out, s)) (or_lanes (out, m))
  unfolding from_rq
  rq-Finds s (some task) m h = (s, refl, h)
  rq-Finds s none m h =
      let (rq, done, held) = rq_pop_lem weak lands s.rq m.lanes h.ready in
      let s' : Sched = record s { rq = rq } in
      (
        s',
        rw (from_rq, done) (reply-got (Spec.pop weights m.lanes).0 s'),
        record {
          ready = held;
          four =
              Held-length rq (Spec.pop weights m.lanes).1 held
              ∙ length-pop weights m.lanes
              ∙ sym (Held-length s.rq m.lanes h.ready)
              ∙ h.four;
          local = h.local;
          workers = h.workers;
          over = h.over;
        },
      )

  -- On a scheduler whose queues hold the tasks of a model, a worker that there is takes the first task of
  -- its own queue; if that is empty, of the overflow bucket; if that is empty too, the task that the
  -- ready queue serves. No other task moves, and every call returns.
  pub gather_lem :
      (s : Sched) (m : Model) (id : ℕ)
      → Holding s m
      → id < length s.lqs
      → (s' : Sched) × (gather weak s id ≡ some ((take_task m id).0, s'))
        × Holding s' (take_task m id).1
  unfolding gather take_task
  gather_lem s m id h lt =
      let (s₁, found₁, h₁) = from_lq-Finds s m id h lt in
      let (s₂, found₂, h₂) = overflow-Finds s₁ (take_local m.locals id).0 _ h₁ in
      let (s₃, found₃, h₃) = rq-Finds s₂ _ _ h₂ in (s₃, rw (gather, found₁, found₂) found₃, h₃)
