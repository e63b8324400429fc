-- ===== src/Sched/Boot/Ready.antt =====
-- A scheduler that `gmk_sched_init` of src/sched.c has set up is empty and ready.
use ggmk.Base.{
  sym, ℕ, zero, suc, ◌+◌, ◌*◌, ◌<◌, ◌≤◌, ◌≡◌, refl, ap, true, some, List, [], arith, length,
  replicate, le→ltb, ==-zero_of_pos, ◌^◌, length-replicate,
}
use ggmk.Bits.{IsPow2}
use ggmk.Mpmc.{cell_stride}
use ggmk.Mpmc.Init.{init_valid}
use ggmk.Spsc.Init.{init_buf-Holds, init-eq-init_buf}
use ggmk.Sched.Lq
use ggmk.Sched.Lq.{Lq, watermark}
use ggmk.Sched.Lq.Reserve.{Queued, watermark_lem}
use ggmk.Sched.Rq.Init.{rq_init-Held}
use ggmk.Sched.Evq
use ggmk.Sched.Evq.{Evq, blank}
use ggmk.Sched.Evq.Holds.{IsValid}
use ggmk.Sched.Enqueue.{Sched}
use ggmk.Sched.Enqueue.Route.{Holding, Locals}
use ggmk.Sched.Boot.{Memory, init_lqs, init}
use ggmk.Task.{Task}

-- The hardware layer returns the memory that it is asked for.
pub record Supplies (mem : Memory) (n_workers : ℕ) : Type 0 where
  pub rq : (i : ℕ) → i < 4 → length (mem.rq_pages i (4096 * cell_stride 48)) ≡ 4096
  pub lq_array : mem.lq_array ≡ true
  pub lq : (i : ℕ) → i < n_workers → length (mem.lq_pages i (1024 * 48)) ≡ 1024
  pub evq_array : mem.evq_array ≡ true
  pub overflow : length (mem.overflow_pages (4096 * cell_stride 48)) ≡ 4096

lq_init-Queued :
    (pages : ℕ → List Task)
    → length (pages (1024 * 48)) ≡ 1024
    → (lq : Lq) × (Lq.init 1024 pages ≡ some lq) × Queued lq []
unfolding Lq.init
lq_init-Queued pages size =
    let p : IsPow2 1024 = record { exponent = 10; power = refl } in
    let (ring, done, holds, same) =
      init_buf-Holds 1024 48 (pages (1024 * 48)) (omega arith) size p (omega arith) in
    rw (Lq.init, init-eq-init_buf 1024 48 pages, done)
      (_, refl, record { holds = holds; within = omega (arith, same, watermark_lem 1024) })

init_lqs-Locals :
    (n i : ℕ) (pages : ℕ → ℕ → List Task)
    → ((j : ℕ) → j < i + n → length (pages j (1024 * 48)) ≡ 1024)
    → (lqs : List Lq) × (init_lqs n i pages ≡ some lqs)
      × Locals lqs (replicate n [])
      × (length lqs ≡ n)
unfolding init_lqs
init_lqs-Locals zero i pages given = ([], refl, tt, refl)
init_lqs-Locals (suc n) i pages given =
    let (lq, done, queued) = lq_init-Queued (pages i) (given i (omega arith)) in
    let (lqs, rest, held, size) = init_lqs-Locals n (suc i) pages (λ j lt. given j (omega arith)) in
    rw (done, rest) (_, refl, (queued, held), ap suc size)

-- `gmk_evq_init` leaves an empty event queue in heap order.
evq_init-IsValid :
    (cap_evq : ℕ)
    → 0 < cap_evq
    → cap_evq < 2 ^ 31
    → (evq : Evq) × (Evq.init cap_evq true ≡ some evq) × IsValid evq × (evq.count ≡ 0)
unfolding Evq.init
evq_init-IsValid n pos small = rw (==-zero_of_pos n pos) (
  _,
  refl,
  record {
    sized = length-replicate n blank;
    small = small;
    within = omega arith;
    ordered = λ c p q. absurd (omega arith);
  },
  refl,
)

-- For 1 to 32 workers and with the memory that it asks for, `gmk_sched_init` leaves a scheduler with
-- empty local queues for all workers, four empty lanes, an empty event queue in heap order and an
-- empty overflow bucket, that numbers tasks from 0.
pub sched_init-Holding :
    (n_workers : ℕ) (mem : Memory)
    → 0 < n_workers
    → n_workers ≤ 32
    → Supplies mem n_workers
    → (s : Sched) × (init n_workers mem ≡ some s)
      × Holding s
          (record { locals = replicate n_workers []; lanes = replicate 4 (0, []); bucket = [] })
      × IsValid s.evq
      × (s.evq.count ≡ 0)
      × (s.next_seq ≡ 0)
unfolding init
sched_init-Holding n mem pos few supply =
    let p : IsPow2 4096 = record { exponent = 12; power = refl } in
    let (rq, rq_done, held, four) =
      rq_init-Held 4096 mem.rq_pages p (omega arith) (omega arith) supply.rq in
    let (lqs, lqs_done, locals, size) =
      init_lqs-Locals n 0 mem.lq_pages (λ j lt. supply.lq j (omega arith)) in
    let (evq, evq_done, valid, none_yet) = evq_init-IsValid 65536 (omega arith) (omega arith) in
    let (ring, ring_done, over, same) =
      init_valid 4096 48 mem.overflow_pages p (omega arith) (omega arith) (omega arith)
        supply.overflow in
    rw
      (
        ==-zero_of_pos n pos,
        le→ltb 32 n few,
        supply.lq_array,
        supply.evq_array,
        rq_done,
        lqs_done,
        evq_done,
        ring_done,
      )
      (
        _,
        refl,
        record { ready = held; four = four; local = locals; workers = sym size; over = over },
        valid,
        none_yet,
        refl,
      )
