-- ===== src/Chan/Flow.antt =====
-- What a P2P channel of src/chan.c promises its subscriber, of a scheduler, a buffer and dead letters that
-- are lists of tasks.
use ggmk.Base.{
  ℕ, ◌*◌, ◌/◌, ◌-◌, ◌==◌, ◌&&◌, not, Option, List, [], ◌∷◌, ◌++◌, ltb, leb, if◌then◌else◌, length,
  add32, take, drop,
}
use ggmk.Rc.{Rc, ok, retry, fail}
use ggmk.Task.{Task, priority}
use ggmk.Metrics.{add64}
use ggmk.Sched.Enqueue.Spec
use ggmk.Sched.Enqueue.Spec.{Model}

-- The tasks of the scheduler, the number of the next one, the dead letters, and the drops and the emits
-- counted.
pub record Flow : Type 0 where
  pub model : Model
  pub next_seq : ℕ
  pub dead : List Task
  pub drops : ℕ
  pub emits : ℕ

-- The marks of the workers' queues, the capacities of the lanes, and those of the channel and of the dead
-- letters.
pub record Limits : Type 0 where
  pub marks : List ℕ
  pub lanes : List ℕ
  pub cap : ℕ
  pub dead_cap : ℕ

-- the task with its number
abbrev pub numbered : Flow → Task → Task
numbered f task = record task { seq = f.next_seq }

-- a list of at most `cap` tasks that one may join
abbrev pub joined : ℕ → List Task → Task → List Task
joined cap xs task = if ltb (length xs) cap then xs ++ task ∷ [] else xs

module _ (limits : Limits) where
  -- a task without a place becomes a dead letter, if they have room, and a drop
  abbrev pub dropped : Flow → Task → Flow
  dropped f task = record f { dead = joined limits.dead_cap f.dead task; drops = add64 f.drops 1 }

  -- the task put, or dropped
  abbrev pub settled : Flow → Task → Rc → Model → Flow
  settled f task ok model = record f { model = model; next_seq = add32 f.next_seq 1 }
  settled f task retry model =
      dropped (record f { model = model; next_seq = add32 f.next_seq 1 }) task
  settled f task (fail code) model =
      dropped (record f { model = model; next_seq = add32 f.next_seq 1 }) task

  module _ (worker_id : Option ℕ) where
    -- where the scheduler puts a task for the subscriber
    abbrev pub offered : Flow → Task → Rc × Model
    offered f task = Spec.enqueue limits.marks limits.lanes f.model (numbered f task) worker_id

    -- a task for the subscriber
    unfoldable pub settle : Flow → Task → Flow
    settle f task = settled f (numbered f task) (offered f task).0 (offered f task).1

    -- tasks for the subscriber, in order
    unfoldable pub settle_all : List Task → Flow → Flow
    unfolding settle
    settle_all [] f = f
    settle_all (task ∷ tasks) f = settle_all tasks (settle f task)

    -- a task that the subscriber's queue has not taken: buffered, if there is room, and then the first
    -- task of the buffer settled
    abbrev pub buffered : Flow → List Task → Task → Rc × Task × List Task × Flow
    buffered f buf task =
        if ltb (length buf) limits.cap
        then (
          ok,
          task,
          drop 1 (buf ++ task ∷ []),
          settle_all (take 1 (buf ++ task ∷ [])) (record f { emits = add64 f.emits 1 }),
        )
        else (fail 2, task, buf, f)

    -- what follows the offer
    abbrev pub after_offer : Rc → Flow → List Task → Task → Rc × Task × List Task × Flow
    after_offer ok f buf task = (ok, task, buf, record f { emits = add64 f.emits 1 })
    after_offer retry f buf task = buffered f buf task
    after_offer (fail code) f buf task = buffered f buf task

    -- A task sent to the subscriber: refused if only the last tenth of the buffer is left and its priority
    -- is not 0, and otherwise offered past the buffer, and buffered if it is not taken.
    unfoldable pub send : Flow → List Task → Task → Rc × Task × List Task × Flow
    send f buf task =
        if leb (limits.cap - limits.cap * 10 / 100) (length buf) && not (priority task.flags == 0)
        then (fail 2, task, buf, f)
        else after_offer (offered f task).0
            (record f { model = (offered f task).1; next_seq = add32 f.next_seq 1 }) buf
            (numbered f task)
