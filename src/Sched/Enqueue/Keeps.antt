-- ===== src/Sched/Enqueue/Keeps.antt =====
-- What `_gmk_enqueue` of src/enqueue.c leaves as it is: the marks of the local queues, the capacities
-- of the lanes, and the event queue.
use ggmk.Base.{
  ℕ, ◌≡◌, ◌∙◌, refl, Bool, true, false, Option, none, some, List, arith, ltb, get_elem?, map-set,
  add32, Bool-cases, Option-cases, inl, inr,
}
use ggmk.Rc.{Rc}
use ggmk.Mpmc
use ggmk.Mpmc.Caps.{push-KeepsCap}
use ggmk.Sched.Lq
use ggmk.Sched.Lq.{Lq}
use ggmk.Sched.Rq
use ggmk.Sched.Rq.{Lane, Rq, lane_of}
use ggmk.Sched.Rq.Push.{caps}
use ggmk.Sched.Enqueue.{Sched, try_lq, to_rq, enqueue, stamped}
use ggmk.Sched.Enqueue.Refine.{watermarks}
use ggmk.Task.{Task}

abbrev SameCaps : List ℕ → Option (Rc × Rq) → Type 0
SameCaps cs none = Unit
SameCaps cs (some (rc, rq)) = caps rq ≡ cs

rq_push-SameCaps :
    (weak : List Bool) (rq : Rq) (task : Task) → SameCaps (caps rq) (Rq.push weak rq task)
unfolding Rq.push
rq_push-SameCaps weak rq task = elim (Option-cases (get_elem? rq (lane_of task))) [
  | inl out ↦ rw (Rq.push, out) tt
  | inr (lane, at) ↦ elim (Option-cases (Mpmc.push weak lane.queue task)) [
    | inl stuck ↦ rw (Rq.push, at, stuck) tt
    | inr ((rc, ring), done) ↦
        rw (Rq.push, at, done)
          (map-set (λ (l : Lane). l.queue.cap) rq (lane_of task) (record lane { queue = ring }) lane
            at (rw done at (push-KeepsCap weak lane.queue task)))
  ]
]

lq_push-mark : (lq : Lq) (task : Task) → (Lq.push lq task).1.yield_watermark ≡ lq.yield_watermark
unfolding Lq.push
lq_push-mark lq task = ground arith

-- what a call leaves as it was
abbrev SameMarks : Sched → Option (Bool × Sched) → Type 0
SameMarks s none = Unit
SameMarks s (some (taken, s')) =
    (watermarks s' ≡ watermarks s)
    × (caps s'.rq ≡ caps s.rq)
    × (s'.next_seq ≡ s.next_seq)
    × (s'.evq ≡ s.evq)

try_lq-SameMarks :
    (s : Sched) (task : Task) (worker_id : Option ℕ) → SameMarks s (try_lq Lq.push s task worker_id)
unfolding try_lq
try_lq-SameMarks s task none = (refl, refl, refl, refl)
try_lq-SameMarks s task (some i) = elim (Bool-cases (ltb i s.n_workers)) [
  | inr beyond ↦ rw (try_lq, beyond) (refl, refl, refl, refl)
  | inl there ↦ elim (Option-cases (get_elem? s.lqs i)) [
    | inl out ↦ rw (try_lq, there, out) tt
    | inr (lq, at) ↦
        rw (try_lq, there, at)
          (
            map-set (λ (l : Lq). l.yield_watermark) s.lqs i (Lq.push lq task).1 lq at
                (lq_push-mark lq task),
            refl,
            refl,
            refl,
          )
  ]
]

-- The marks, the capacities and the event queue stay, and the counter goes on by one.
abbrev pub Keeps : Sched → Option (Rc × Task × Sched) → Type 0
Keeps s none = Unit
Keeps s (some (rc, task, s')) =
    (watermarks s' ≡ watermarks s)
    × (caps s'.rq ≡ caps s.rq)
    × (s'.next_seq ≡ add32 s.next_seq 1)
    × (s'.evq ≡ s.evq)

to_rq-Keeps :
    (weak : List Bool) (s : Sched) (task : Task) (tried : Option (Bool × Sched))
    → SameMarks (record s { next_seq = add32 s.next_seq 1 }) tried
    → Keeps s (to_rq weak task tried)
to_rq-Keeps weak s task none k = tt
to_rq-Keeps weak s task (some (true, s')) k = k
to_rq-Keeps weak s task (some (false, s')) (marks, cs, seq, evq) =
    elim (Option-cases (Rq.push weak s'.rq task)) [
      | inl stuck ↦ rw (Keeps, to_rq, stuck) tt
      | inr ((rc, rq), done) ↦
          rw (Keeps, to_rq, done)
            (marks, rw done at (rq_push-SameCaps weak s'.rq task) ∙ cs, seq, evq)
    ]

pub enqueue-Keeps :
    (weak : List Bool) (s : Sched) (task : Task) (worker_id : Option ℕ)
    → Keeps s (enqueue weak s task worker_id)
unfolding enqueue
enqueue-Keeps weak s task worker_id =
    to_rq-Keeps weak s (stamped s task)
      (try_lq Lq.push (record s { next_seq = add32 s.next_seq 1 }) (stamped s task) worker_id)
      (try_lq-SameMarks (record s { next_seq = add32 s.next_seq 1 }) (stamped s task) worker_id)
