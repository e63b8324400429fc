-- ===== src/Worker/Tests.antt =====
-- A worker of src/worker.c takes the task of its own queue; a pool whose threads cannot all be created.
use ggmk.Base.{ltb, ℕ, ◌≡◌, refl, [], ◌∷◌, some, arith, ◌*◌, ◌^◌, true, false}
use ggmk.Sched.Enqueue.{Sched}
use ggmk.Sched.Enqueue.Route.{Holding}
use ggmk.Sched.Tests.{high, weak, sched, model, sched-Holding}
use ggmk.Rc.{minus_one}
use ggmk.Sched.Evq.{Entry}
use ggmk.Sched.Evq.Holds.{IsValid}
use ggmk.Worker.Due.{drain_due, Drained, drain_due_lem}
use ggmk.Worker.Pool.{Worker, pool_start}
use ggmk.Worker.Start.{sleepers, pool_start_lem}
use ggmk.Worker.{gather}
use ggmk.Worker.Gather.{take_task, take_local, gather_lem}

gather_lem_example :
    (s' : Sched) × (gather weak sched 0 ≡ some (some high, s'))
    × Holding s' (record model { locals = [] ∷ [] })
unfolding take_task take_local
gather_lem_example = gather_lem weak tt sched model 0 sched-Holding (omega arith)

abbrev worker : ℕ → Worker
worker id = record { id = id; running = false; parked = false; tasks_dispatched = 0; tick = 0 }

-- The thread of the third of four workers cannot be created, and the first is parked.
pool_start_lem_example :
    pool_start
      (λ id. ltb id 2)
      (record (worker 0) { parked = true } ∷ worker 1 ∷ worker 2 ∷ worker 3 ∷ [])
    ≡ (
      minus_one,
      record (worker 0) { parked = true }
          ∷ worker 1
          ∷ record (worker 2) { running = true }
          ∷ worker 3
          ∷ [],
      0 ∷ [],
    )
unfolding sleepers
pool_start_lem_example =
    pool_start_lem (λ id. ltb id 2) (record (worker 0) { parked = true } ∷ worker 1 ∷ [])
      (worker 2 ∷ worker 3 ∷ []) (refl, (refl, tt)) refl

-- one event, due at tick 3
abbrev event : Entry
event = record { key = 3 * 2 ^ 32; task = high }

abbrev due_sched : Sched
due_sched = record sched { evq = record { heap = event ∷ []; count = 1; cap = 1; next_seq = 1 } }

due_sched-Holding : Holding due_sched model
due_sched-Holding = record {
  ready = sched-Holding.ready;
  four = sched-Holding.four;
  local = sched-Holding.local;
  workers = sched-Holding.workers;
  over = sched-Holding.over;
}

due_sched-IsValid : IsValid due_sched.evq
due_sched-IsValid = record {
  sized = refl;
  small = omega arith;
  within = omega arith;
  ordered = λ c p q. absurd (omega arith);
}

drain_due_lem_example :
    Drained weak tt 3 0 due_sched model 256 0 (drain_due weak 3 0 256 0 due_sched)
drain_due_lem_example =
    drain_due_lem weak tt 3 0 256 0 due_sched model due_sched-Holding due_sched-IsValid
