-- ===== src/Sched/Rq/Push.antt =====
-- `gmk_rq_push` of src/sched_rq.c appends to the lane of the task's priority.
use ggmk.Base.{
  ℕ, zero, suc, ◌%◌, ◌<◌, ◌≡◌, refl, Bool, some, List, [], ◌∷◌, arith, get_elem?, set, length,
  dec_lt, lt→ltb, le→ltb, map,
}
use ggmk.Bits.{bit_and-mask}
use ggmk.Mpmc
use ggmk.Mpmc.Slots.{Lands, Lands-ne}
use ggmk.Mpmc.Push.{push-room, push-full, pushed-Holds}
use ggmk.Sched.Rq.{Lane, Rq, lane_of, push}
use ggmk.Sched.Rq.Spec
use ggmk.Sched.Rq.Spec.{Lanes}
use ggmk.Sched.Rq.Refine.{Held}
use ggmk.Task.{Task, priority}

-- The two low bits of the flags are the lane.
pub lane_of_lem : (task : Task) → lane_of task ≡ task.flags % 4
unfolding lane_of priority
lane_of_lem task = ground (arith, bit_and-mask 2 task.flags)

abbrev pub caps : Rq → List ℕ
caps rq = map (λ (lane : Lane). lane.queue.cap) rq

module _ (weak : List Bool) (lands : Lands weak) (task : Task) where
  -- how the push to lane `i` ends
  abbrev Placed : Rq → Lanes Task → ℕ → Type 0
  Placed rq lanes i =
      (lane : Lane) × (ring : Mpmc.Ring Task) × (get_elem? rq i ≡ some lane)
      × (Mpmc.push weak lane.queue task ≡ some ((Spec.push (caps rq) lanes task i).0, ring))
      × Held (set rq i (record lane { queue = ring })) (Spec.push (caps rq) lanes task i).1

  push-Placed :
      (rq : Rq) (lanes : Lanes Task) (i : ℕ) → Held rq lanes → i < length rq → Placed rq lanes i
  unfolding Spec.push
  push-Placed [] lanes i held lt = absurd (omega arith)
  push-Placed (l ∷ rq) [] i held lt = elim held [ ]
  push-Placed (l ∷ rq) ((c, xs) ∷ lanes) zero (e, h, held) lt =
      elim (dec_lt (length xs) l.queue.cap) [
        | yes room ↦
            rw (lt→ltb (length xs) l.queue.cap room)
              (l, _, refl, push-room h weak task room lands, (e, pushed-Holds h task room, held))
        | no full ↦ rw (le→ltb (length xs) l.queue.cap (omega arith)) (
          l,
          _,
          refl,
          push-full h weak task (Lands-ne weak lands) (omega (arith, h.fits)),
          (e, h, held),
        )
      ]
  push-Placed (l ∷ rq) ((c, xs) ∷ lanes) (suc i) (e, h, held) lt =
      let (lane, ring, at, done, held') = push-Placed rq lanes i held (omega arith) in
      (lane, ring, at, done, (e, h, held'))

  -- A ready queue of four lanes puts the task in the lane of its two low flag bits, behind the others
  -- and with result 0, if the ring there has room, and otherwise returns -1 and changes nothing; every
  -- call returns.
  pub rq_push_lem :
      (rq : Rq) (lanes : Lanes Task)
      → Held rq lanes
      → length rq ≡ 4
      → (rq' : Rq) × (push weak rq task
          ≡ some ((Spec.push (caps rq) lanes task (task.flags % 4)).0, rq'))
        × Held rq' (Spec.push (caps rq) lanes task (task.flags % 4)).1
  unfolding push
  rq_push_lem rq lanes held four =
      let (lane, ring, at, done, held') =
        push-Placed rq lanes (task.flags % 4) held (omega arith) in
      let at' : get_elem? rq (lane_of task) ≡ some lane = rw (lane_of_lem task) at in
      rw (push, at', done, lane_of_lem task) (_, refl, held')
