-- ===== src/Sched/Lq/Reserve.antt =====
-- What the watermark of src/sched_lq.c keeps free for yields.
use ggmk.Base.{
  ℕ, ◌+◌, ◌/◌, ◌^◌, lt→leb, le→leb, ◌≤◌, ◌≡◌, refl, List, [], ◌∷◌, ◌++◌, arith, length, ltb,
  if◌then◌else◌, dec_lt, lt→ltb, le→ltb,
}
use ggmk.Rc.{ok, minus_one}
use ggmk.Spsc.Holds.{Holds}
use ggmk.Spsc.Refine.{count-length, push-Holds, push-full, cap-push}
use ggmk.Sched.Lq.{Lq, watermark, push, push_yield}
use ggmk.Task.{Task}

-- The local queue holds the tasks `xs`, and its watermark is within the capacity.
pub record Queued (lq : Lq) (xs : List Task) : Type 0 where
  pub holds : Holds lq.ring xs
  pub within : lq.yield_watermark ≤ lq.ring.cap

-- Up to 2 ^ 27 slots, a quarter of the capacity, rounded down, is left to yields.
pub watermark_lem : (cap : ℕ) → cap ≤ 2 ^ 27 → watermark cap + cap / 4 ≡ cap
unfolding watermark
watermark_lem cap h = omega arith

module _ {lq : Lq} {xs : List Task} (q : Queued lq xs) (task : Task) where
  -- A normal push goes through exactly below the watermark, and then appends the task; otherwise it
  -- changes nothing.
  pub lq_push_lem :
      ((push lq task).0 ≡ (if ltb (length xs) lq.yield_watermark then ok else minus_one))
      × Queued (push lq task).1 (if ltb (length xs) lq.yield_watermark then xs ++ task ∷ [] else xs)
  unfolding push
  lq_push_lem = elim (dec_lt (length xs) lq.yield_watermark) [
    | yes lt ↦
        let (done, h) = push-Holds q.holds task (omega (arith, q.within)) in
        rw
          (
            lt→ltb (length xs) lq.yield_watermark lt,
            count-length q.holds,
            lt→leb (length xs) lq.yield_watermark lt,
          )
          (done, record { holds = h; within = rw (cap-push lq.ring task) q.within })
    | no ge ↦
        rw
          (
            le→ltb (length xs) lq.yield_watermark (omega arith),
            count-length q.holds,
            le→leb lq.yield_watermark (length xs) (omega arith),
          )
          (refl, q)
  ]

  -- A yield push goes through as long as there is a free slot.
  pub lq_push_yield_lem :
      ((push_yield lq task).0 ≡ (if ltb (length xs) lq.ring.cap then ok else minus_one))
      × Queued (push_yield lq task).1 (if ltb (length xs) lq.ring.cap then xs ++ task ∷ [] else xs)
  unfolding push_yield
  lq_push_yield_lem = elim (dec_lt (length xs) lq.ring.cap) [
    | yes lt ↦
        let (done, h) = push-Holds q.holds task lt in
        rw (lt→ltb (length xs) lq.ring.cap lt)
          (done, record { holds = h; within = rw (cap-push lq.ring task) q.within })
    | no ge ↦
        rw
          (
            le→ltb (length xs) lq.ring.cap (omega arith),
            push-full q.holds task (omega (arith, q.holds.fits)),
          )
          (refl, q)
  ]
