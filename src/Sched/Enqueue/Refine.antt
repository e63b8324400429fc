-- ===== src/Sched/Enqueue/Refine.antt =====
-- `_gmk_enqueue` and `_gmk_yield` of src/enqueue.c put a task where the specification says.
use ggmk.Base.{
  ℕ, ◌+◌, ◌^◌, ◌==◌, if◌then◌else◌, ◌%◌, ◌∙◌, sym, ◌≡◌, refl, Bool, true, false, Option, some, List,
  arith, ltb, length, dec_lt, lt→ltb, le→ltb, map, add32, Bool-cases, inl, inr,
}
use ggmk.Rc.{Rc}
use ggmk.Mpmc.Slots.{Lands, Lands-ne}
use ggmk.Mpmc.Push.{push-room, push-full, pushed-Holds}
use ggmk.Sched.Lq
use ggmk.Sched.Lq.{Lq}
use ggmk.Sched.Lq.Reserve.{lq_push_lem, lq_push_yield_lem}
use ggmk.Sched.Rq.Spec.{length-push}
use ggmk.Sched.Rq.Refine.{Held-length}
use ggmk.Sched.Rq.Push.{caps, rq_push_lem}
use ggmk.Sched.Enqueue.{Sched, stamped, yielded, limit, to_rq, to_overflow, enqueue, yield}
use ggmk.Sched.Enqueue.Spec
use ggmk.Sched.Enqueue.Spec.{Model, or_lane, or_bucket}
use ggmk.Sched.Enqueue.Route.{Holding, try_lq_lem}
use ggmk.Task.{Task}

abbrev pub watermarks : Sched → List ℕ
watermarks s = map (λ (lq : Lq). lq.yield_watermark) s.lqs

abbrev pub slots : Sched → List ℕ
slots s = map (λ (lq : Lq). lq.ring.cap) s.lqs

-- A call returns the result and the task, and leaves the scheduler that the specification leaves.
abbrev pub Ends : Option (Rc × Task × Sched) → Task → Rc × Model → Type 0
Ends r task (rc, m) = (s : Sched) × (r ≡ some (rc, task, s)) × Holding s m

module _ (weak : List Bool) (lands : Lands weak) (task : Task) where
  to_rq-Ends :
      {s : Sched} (m : Model) (offered : Bool × List (List Task))
      → Holding s (record m { locals = offered.1 })
      → Ends (to_rq weak task (some (offered.0, s))) task (or_lane (caps s.rq) m task offered)
  to_rq-Ends {s} m (true, locals) h = (s, refl, h)
  to_rq-Ends {s} m (false, locals) h =
      let (rq, done, held) = rq_push_lem weak lands task s.rq m.lanes h.ready h.four in
      rw (to_rq, done)
        (
          record s { rq = rq },
          refl,
          record {
            ready = held;
            four =
                Held-length rq _ held
                ∙ length-push (caps s.rq) m.lanes task (task.flags % 4)
                ∙ sym (Held-length s.rq m.lanes h.ready)
                ∙ h.four;
            local = h.local;
            workers = h.workers;
            over = h.over;
          },
        )

  to_overflow-Ends :
      {s : Sched} (m : Model) (offered : Bool × List (List Task))
      → Holding s (record m { locals = offered.1 })
      → Ends
          (to_overflow weak task (some (offered.0, s)))
          task
          (or_bucket s.overflow.cap m task offered)
  to_overflow-Ends {s} m (true, locals) h = (s, refl, h)
  to_overflow-Ends {s} m (false, locals) h = elim (dec_lt (length m.bucket) s.overflow.cap) [
    | yes room ↦
        rw
          (
            lt→ltb (length m.bucket) s.overflow.cap room,
            to_overflow,
            push-room h.over weak task room lands,
          )
          (
            _,
            refl,
            record {
              ready = h.ready;
              four = h.four;
              local = h.local;
              workers = h.workers;
              over = pushed-Holds h.over task room;
            },
          )
    | no full ↦
        rw
          (
            le→ltb (length m.bucket) s.overflow.cap (omega arith),
            to_overflow,
            push-full h.over weak task (Lands-ne weak lands) (omega (arith, h.over.fits)),
          )
          (s, refl, h)
  ]

module _ (weak : List Bool) (lands : Lands weak) {s : Sched} {m : Model} (h : Holding s m) where
  -- `_gmk_enqueue` numbers the task with the counter of the scheduler, and puts it in the queue of the
  -- worker, if there is that worker and its queue is below the watermark, or else in the lane of the
  -- task's priority, if that has room; with 0 if there is a place, with -1 and no queue changed if
  -- there is none; every call returns.
  pub enqueue_lem :
      (task : Task) (worker_id : Option ℕ)
      → Ends
          (enqueue weak s task worker_id)
          (stamped s task)
          (Spec.enqueue (watermarks s) (caps s.rq) m (stamped s task) worker_id)
  unfolding enqueue
  enqueue_lem task worker_id =
      let counted : Holding (record s { next_seq = add32 s.next_seq 1 }) m = record {
        ready = h.ready;
        four = h.four;
        local = h.local;
        workers = h.workers;
        over = h.over;
      } in
      let (lqs, tried, held) =
        try_lq_lem Lq.push (λ lq. lq.yield_watermark) (stamped s task)
          (λ lq xs q. lq_push_lem q (stamped s task)) worker_id counted in
      rw tried (to_rq-Ends weak lands (stamped s task) m _ held)

  -- `_gmk_yield` adds 1 to the task's count of yields, in 16 bits. Above the limit, which is 16 if it is given
  -- as 0, it returns -10 and changes no queue. Otherwise it puts the task in the queue of the worker, if there
  -- is that worker and its queue has a free slot, or else in the overflow bucket, if that has room, with 0, and
  -- returns -9 and changes no queue if there is no place; every call returns if of each call on a ring one
  -- compare-and-swap does not fail spuriously.
  pub yield_lem :
      (task : Task) (worker_id : Option ℕ) (max_yields : ℕ)
      → Ends
          (yield weak s task worker_id max_yields)
          (record task { yield_count = (task.yield_count + 1) % 2 ^ 16 })
          (Spec.yield
            (slots s)
            s.overflow.cap
            (if max_yields == 0 then 16 else max_yields)
            m
            (record task { yield_count = (task.yield_count + 1) % 2 ^ 16 })
            worker_id)
  unfolding yield limit
  yield_lem task worker_id max_yields =
      elim (Bool-cases (ltb (limit max_yields) (yielded task).yield_count)) [
        | inl over ↦ rw over (s, refl, h)
        | inr under ↦
            let (lqs, tried, held) =
              try_lq_lem Lq.push_yield (λ lq. lq.ring.cap) (yielded task)
                (λ lq xs q. lq_push_yield_lem q (yielded task)) worker_id h in
            rw (under, tried) (to_overflow-Ends weak lands (yielded task) m _ held)
      ]
