-- ===== src/Sched/Tests.antt =====
-- The theorems on the queues of the scheduler, at concrete queues.
use ggmk.Base.{
  replicate, length-replicate, ℕ, ◌+◌, ◌/◌, ◌≡◌, ◌<◌, refl, List, [], ◌∷◌, some, Bool, true, false,
  arith, zero, suc, ◌%◌, get_elem?,
}
use ggmk.Bits.{IsPow2}
use ggmk.Rc.{ok, minus_one}
use ggmk.Mpmc
use ggmk.Mpmc.Holds.{Holds}
use ggmk.Sched.Lq
use ggmk.Sched.Lq.{Lq, watermark}
use ggmk.Sched.Lq.Reserve.{Queued, watermark_lem, lq_push_lem, lq_push_yield_lem}
use ggmk.Sched.Rq
use ggmk.Sched.Rq.{Lane, Rq, weights}
use ggmk.Sched.Rq.Spec
use ggmk.Sched.Rq.Spec.{Lanes}
use ggmk.Sched.Rq.Refine.{Held, rq_pop_lem}
use ggmk.Sched.Rq.Push.{rq_push_lem}
use ggmk.Sched.Enqueue.{Sched, enqueue, yield, stamped, yielded}
use ggmk.Sched.Enqueue.Spec.{Model, offer}
use ggmk.Sched.Enqueue.Route.{Holding}
use ggmk.Sched.Enqueue.Refine.{Ends, enqueue_lem, yield_lem}
use ggmk.Sched.Evq.Holds.{IsValid}
use ggmk.Sched.Boot
use ggmk.Sched.Boot.{Memory}
use ggmk.Sched.Boot.Ready.{Supplies, sched_init-Holding}
use ggmk.Task.{Task}

-- a task of priority 1
abbrev pub high : Task
high = record {
  type = 7;
  flags = 5;
  tenant = 0;
  channel = 0;
  seq = 0;
  payload_ptr = 0;
  payload_len = 0;
  yield_count = 0;
  pad = 0;
  meta0 = 0;
  meta1 = 0;
}

abbrev two_pow : IsPow2 2
two_pow = record { exponent = 1; power = refl }

-- a local queue of two slots that keeps one of them for yields, with one task in it
abbrev local : Lq
local = record {
  ring = record { head = 0; tail = 1; cap = 2; mask = 1; elem_size = 48; buf = high ∷ high ∷ [] };
  yield_watermark = 1;
  cap = 2;
}

local-Queued : Queued local (high ∷ [])
local-Queued = record {
  holds = record {
    pow2 = two_pow;
    small = omega arith;
    masked = refl;
    slots = refl;
    head_word = omega arith;
    counted = refl;
    fits = omega arith;
    stored = λ i lt. first i lt;
  };
  within = omega arith;
}
  where
    first : (i : ℕ) → i < 1 → get_elem? (high ∷ high ∷ []) ((0 + i) % 2) ≡ get_elem? (high ∷ []) i
    first zero lt = refl
    first (suc i) lt = absurd (omega arith)

watermark-at_256 : watermark 256 + 256 / 4 ≡ 256
watermark-at_256 = watermark_lem 256 (omega arith)

high_pushed : ((Lq.push local high).0 ≡ minus_one) × Queued (Lq.push local high).1 (high ∷ [])
high_pushed = lq_push_lem local-Queued high

high_yielded :
    ((Lq.push_yield local high).0 ≡ ok) × Queued (Lq.push_yield local high).1 (high ∷ high ∷ [])
high_yielded = lq_push_yield_lem local-Queued high

abbrev pub ring : Mpmc.Ring Task
ring = record {
  head = 0;
  tail = 0;
  cap = 2;
  mask = 1;
  elem_size = 48;
  cell_size = 56;
  buf = record { seq = 0; value = high } ∷ record { seq = 1; value = high } ∷ [];
}

ring-free :
    (i : ℕ)
    → i < 2
    → (x : Task) × (get_elem? ring.buf ((0 + i) % 2)
        ≡ some (record { seq = (0 + i) % 4294967296; value = x }))
ring-free zero h = (high, refl)
ring-free (suc zero) h = (high, refl)
ring-free (suc (suc i)) h = absurd (omega arith)

pub ring-Holds : Holds ring []
ring-Holds = record {
  pow2 = two_pow;
  small = omega arith;
  two = omega arith;
  masked = refl;
  slots = refl;
  head_word = omega arith;
  counted = refl;
  fits = omega arith;
  filled = λ i x e lt. absurd (omega arith);
  free = λ i le lt. ring-free i lt;
}

abbrev lane : Lane
lane = record { queue = ring; pop_counter = 0 }

abbrev rq : Rq
rq = lane ∷ lane ∷ lane ∷ lane ∷ []

abbrev lanes : Lanes Task
lanes = (0, []) ∷ (0, []) ∷ (0, []) ∷ (0, []) ∷ []

rq-Held : Held rq lanes
rq-Held = (refl, ring-Holds, (refl, ring-Holds, (refl, ring-Holds, (refl, ring-Holds, tt))))

-- a spurious failure first
abbrev pub weak : List Bool
weak = true ∷ false ∷ []

rq_push_lem_sample :
    (rq' : Rq) × (Rq.push weak rq high ≡ some (ok, rq'))
    × Held rq' ((0, []) ∷ (0, high ∷ []) ∷ (0, []) ∷ (0, []) ∷ [])
unfolding Spec.push
rq_push_lem_sample = rq_push_lem weak tt high rq lanes rq-Held refl

-- what is pushed is popped, with the counter of its lane at 1
rq_pop_lem_example :
    (rq' : Rq) × (Rq.pop weak (rq_push_lem weak tt high rq lanes rq-Held refl).0
      ≡ some (ok, some high, rq'))
    × Held rq' ((0, []) ∷ (1, []) ∷ (0, []) ∷ (0, []) ∷ [])
unfolding Spec.pop Spec.push Spec.take_weighted
rq_pop_lem_example =
    rq_pop_lem weak tt (rq_push_lem weak tt high rq lanes rq-Held refl).0
      ((0, []) ∷ (0, high ∷ []) ∷ (0, []) ∷ (0, []) ∷ [])
      (rq_push_lem weak tt high rq lanes rq-Held refl).2

abbrev pub sched : Sched
sched = record {
  rq = rq;
  lqs = local ∷ [];
  evq = record { heap = []; count = 0; cap = 0; next_seq = 0 };
  overflow = ring;
  n_workers = 1;
  next_seq = 0xffff_ffff;
}

abbrev pub model : Model
model = record { locals = (high ∷ []) ∷ []; lanes = lanes; bucket = [] }

pub sched-Holding : Holding sched model
sched-Holding = record {
  ready = rq-Held;
  four = refl;
  local = (local-Queued, tt);
  workers = refl;
  over = ring-Holds;
}

-- The local queue is at its watermark, so the task goes to lane 1.
enqueue_lem_example :
    Ends
      (enqueue weak sched high (some 0))
      (stamped sched high)
      (ok, record model { lanes = (0, []) ∷ (0, stamped sched high ∷ []) ∷ (0, []) ∷ (0, []) ∷ [] })
unfolding offer Spec.push
enqueue_lem_example = enqueue_lem weak tt sched-Holding high (some 0)

-- A yield may use the last slot.
yield_lem_example :
    Ends
      (yield weak sched high (some 0) 0)
      (yielded high)
      (ok, record model { locals = (high ∷ yielded high ∷ []) ∷ [] })
unfolding offer
yield_lem_example = yield_lem weak tt sched-Holding high (some 0) 0

abbrev cell : Mpmc.Cell Task
cell = record { seq = 0; value = high }

abbrev memory : Memory
memory = record {
  rq_pages = λ i bytes. replicate 4096 cell;
  lq_array = true;
  lq_pages = λ i bytes. replicate 1024 high;
  evq_array = true;
  overflow_pages = λ bytes. replicate 4096 cell;
}

memory-Supplies : Supplies memory 2
memory-Supplies = record {
  rq = λ i lt. length-replicate 4096 cell;
  lq_array = refl;
  lq = λ i lt. length-replicate 1024 high;
  evq_array = refl;
  overflow = length-replicate 4096 cell;
}

sched_init-Holding_sample :
    (s : Sched) × (Boot.init 2 memory ≡ some s)
    × Holding s (record { locals = [] ∷ [] ∷ []; lanes = lanes; bucket = [] })
    × IsValid s.evq
    × (s.evq.count ≡ 0)
    × (s.next_seq ≡ 0)
sched_init-Holding_sample = sched_init-Holding 2 memory (omega arith) (omega arith) memory-Supplies
