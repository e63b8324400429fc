-- ===== src/Sched/Rq.antt =====
-- src/sched_rq.c: the ready queue, four multi-producer rings with weighted pop. `queues[i]` and
-- `pop_counters[i]` are the two fields of lane `i`. `weak` says of each call on a ring which
-- compare-and-swaps fail spuriously, and `none` means that such a call does not return.
pub mod Spec
pub mod Refine
pub mod Lengths
pub mod Push
pub mod Init
use ggmk.Base.{
  ℕ, zero, suc, ◌+◌, Bool, Option, none, some, List, [], ◌∷◌, map, add32, ltb, leb, if◌then◌else◌,
  get_elem?, set,
}
use ggmk.Rc.{Rc, ok, minus_one}
use ggmk.Mpmc
use ggmk.Task.{Task, priority, priority_count, prio_low}

pub record Lane : Type 0 where
  pub queue : Mpmc.Ring Task
  pub pop_counter : ℕ

-- `gmk_rq_t`
abbrev pub Rq : Type 0
Rq = List Lane

-- `GMK_WEIGHT_P0` to `GMK_WEIGHT_P3`
abbrev pub weights : List ℕ
weights = 8 ∷ 4 ∷ 2 ∷ 1 ∷ []

-- The loop of `gmk_rq_init` from queue `i` on, with `n` queues to go. Queue `i` is given what
-- `page_alloc i` returns; `none` is -1, with the queues so far destroyed.
pub init_lanes : ℕ → ℕ → ℕ → (ℕ → ℕ → List (Mpmc.Cell Task)) → Option Rq
init_lanes zero i cap page_alloc = some []
init_lanes (suc n) i cap page_alloc =
    let rest = init_lanes n (i + 1) cap page_alloc in
    elim (Mpmc.init cap 48 (page_alloc i)) [
      | none ↦ none
      | some ring ↦ elim rest [
        | none ↦ none
        | some lanes ↦ some (record { queue = ring; pop_counter = 0 } ∷ lanes)
      ]
    ]

-- `gmk_rq_init`
unfoldable pub init : ℕ → (ℕ → ℕ → List (Mpmc.Cell Task)) → Option Rq
unfolding init_lanes
init cap_per_queue page_alloc = init_lanes priority_count 0 cap_per_queue page_alloc

-- `gmk_rq_destroy`
unfoldable pub destroy : Rq → Rq
destroy rq = map (λ (lane : Lane). record lane { queue = (Mpmc.destroy lane.queue).0 }) rq

-- the queue that a task goes to
unfoldable pub lane_of : Task → ℕ
unfolding priority
lane_of task = let prio = priority task.flags in if leb priority_count prio then prio_low else prio

-- `gmk_rq_count`
pub count_from : ℕ → Rq → ℕ
count_from total [] = total
count_from total (lane ∷ rq) = count_from (add32 total (Mpmc.count lane.queue)) rq

unfoldable pub count : Rq → ℕ
unfolding count_from
count rq = count_from 0 rq

-- the loop that sets the counters to 0
pub reset_counters : Rq → Rq
reset_counters [] = []
reset_counters (lane ∷ rq) = record lane { pop_counter = 0 } ∷ reset_counters rq

-- a pass that goes on beyond `lane`
abbrev pub keep_lane : Lane → Option (Option Task × Rq) → Option (Option Task × Rq)
keep_lane lane none = none
keep_lane lane (some (found, rq)) = some (found, lane ∷ rq)

-- how `gmk_rq_pop` ends after its last loop
abbrev pub finish : Option (Option Task × Rq) → Option (Rc × Option Task × Rq)
finish none = none
finish (some (some task, rq)) = some (ok, some task, rq)
finish (some (none, rq)) = some (minus_one, none, rq)

-- The option that a pop of a ring returns is a task exactly when its result is 0.
module _ (weak : List Bool) where
  -- `gmk_rq_push`
  unfoldable pub push : Rq → Task → Option (Rc × Rq)
  push rq task = elim (get_elem? rq (lane_of task)) [
    | none ↦ none
    | some lane ↦ elim (Mpmc.push weak lane.queue task) [
      | none ↦ none
      | some (rc, ring) ↦ some (rc, set rq (lane_of task) (record lane { queue = ring }))
    ]
  ]

  -- The first loop of `gmk_rq_pop`, from a queue on: the task that it finds, and the lanes.
  pub first_pass : List ℕ → Rq → Option (Option Task × Rq)
  first_pass [] rq = some (none, rq)
  first_pass (weight ∷ ws) [] = some (none, [])
  first_pass (weight ∷ ws) (lane ∷ rq) =
      let rest = keep_lane lane (first_pass ws rq) in
      if ltb lane.pop_counter weight
      then elim (Mpmc.pop weak lane.queue) [
        | none ↦ none
        | some (rc, none, ring) ↦ rest
        | some (rc, some task, ring) ↦
            some
              (some task, record lane { queue = ring; pop_counter = add32 lane.pop_counter 1 } ∷ rq)
      ]
      else rest

  -- The last loop of `gmk_rq_pop`.
  pub second_pass : Rq → Option (Option Task × Rq)
  second_pass [] = some (none, [])
  second_pass (lane ∷ rq) =
      let rest = keep_lane lane (second_pass rq) in
      elim (Mpmc.pop weak lane.queue) [
        | none ↦ none
        | some (rc, none, ring) ↦ rest
        | some (rc, some task, ring) ↦
            some
              (some task, record lane { queue = ring; pop_counter = add32 lane.pop_counter 1 } ∷ rq)
      ]

  -- how `gmk_rq_pop` goes on after its first loop
  abbrev pub after_first : Option (Option Task × Rq) → Option (Rc × Option Task × Rq)
  after_first none = none
  after_first (some (some task, rq)) = some (ok, some task, rq)
  after_first (some (none, rq)) = finish (second_pass (reset_counters rq))

  -- `gmk_rq_pop`; the inner option is what is copied to `*task`.
  unfoldable pub pop : Rq → Option (Rc × Option Task × Rq)
  unfolding first_pass second_pass reset_counters
  pop rq = after_first (first_pass weights rq)
