-- ===== src/Spsc/Tests.antt =====
-- Runs of the ring of src/ring_spsc.c, and its theorems at concrete rings.
use ggmk.Base.{
  ℕ, ◌≡◌, ◌≢◌, refl, inl, inr, ◌↔◌, true, List, [], ◌∷◌, ◌++◌, Option, none, some, map, arith,
  bit_and,
}
use ggmk.Bits.{IsPow2}
use ggmk.Fifo
use ggmk.Fifo.{Op, put, get, Reply}
use ggmk.Rc.{ok, minus_one}
use ggmk.Spsc.{Ring, init_buf, destroy, push, pop, count, full, empty}
use ggmk.Spsc.Holds.{Holds}
use ggmk.Spsc.Init.{init_buf-Holds, init_buf-refuses}
use ggmk.Spsc.Refine.{step, queries_lem, spsc_run_refines}
use ggmk.Spsc.Threads
use ggmk.Spsc.Threads.{
  Producer, Consumer, System, Reach, here, next, producer, consumer, produce, consume,
}
use ggmk.Spsc.Threads.Fifo.{exchange_fifo, slots_disjoint}

-- empty, with counters about to wrap
abbrev top : Ring ℕ
top = record {
  head = 0xffff_ffff;
  tail = 0xffff_ffff;
  cap = 2;
  mask = 1;
  elem_size = 4;
  buf = 0 ∷ 0 ∷ [];
}

abbrev two_pow : IsPow2 2
two_pow = record { exponent = 1; power = refl }

top-Holds : Holds top []
top-Holds = record {
  pow2 = two_pow;
  small = omega arith;
  masked = refl;
  slots = refl;
  head_word = omega arith;
  counted = refl;
  fits = omega arith;
  stored = λ i lt. absurd (omega arith);
}

abbrev script : List (Op ℕ)
script = put 5 ∷ put 6 ∷ put 7 ∷ get ∷ get ∷ get ∷ []

script_replies :
    Fifo.run step top script
    ≡ (ok, none)
      ∷ (ok, none)
      ∷ (minus_one, none)
      ∷ (ok, some 5)
      ∷ (ok, some 6)
      ∷ (minus_one, none)
      ∷ []
unfolding Fifo.run step push pop
script_replies = refl

spsc_run_refines_example : Fifo.run step top script ≡ Fifo.run (Fifo.step 2) [] script
spsc_run_refines_example = spsc_run_refines top-Holds script

destroy-top : destroy top ≡ (record top { buf = [] }, some 8)
unfolding destroy
destroy-top = refl

queries_lem_sample :
    (count top ≡ 0)
    × ((full top ≡ true) ↔ (◌≡◌ {A = ℕ} 0 2))
    × ((empty top ≡ true) ↔ (◌≡◌ {A = List ℕ} [] []))
queries_lem_sample = queries_lem top-Holds

init_buf-Holds_sample :
    (r : Ring ℕ) × (init_buf 2 4 (0 ∷ 0 ∷ []) ≡ some r) × Holds r [] × (r.cap ≡ 2)
init_buf-Holds_sample = init_buf-Holds 2 4 (0 ∷ 0 ∷ []) (omega arith) refl two_pow (omega arith)

init_buf-refuses_sample : init_buf {A = ℕ} 2 0 (0 ∷ 0 ∷ []) ≡ none
init_buf-refuses_sample = init_buf-refuses 2 0 (0 ∷ 0 ∷ []) (inr (inl refl))

-- `some x`: a step of the producer, which pushes `x` when it calls; `none`: one of the consumer
drive : List (Option ℕ) → System ℕ → System ℕ
drive [] s = s
drive (some x ∷ acts) s = drive acts (record s {
  ring = (produce x s.ring s.producer).0;
  producer = (produce x s.ring s.producer).1;
  sent = s.sent ++ Threads.published s.producer;
})
drive (none ∷ acts) s = drive acts (record s {
  ring = (consume s.ring s.consumer).0;
  consumer = (consume s.ring s.consumer).1;
  received = s.received ++ Threads.released s.consumer;
})

drive-Reach : (acts : List (Option ℕ)) {s : System ℕ} → Reach top s → Reach top (drive acts s)
unfolding drive
drive-Reach [] r = r
drive-Reach (some x ∷ acts) r = drive-Reach acts (next r (producer x))
drive-Reach (none ∷ acts) r = drive-Reach acts (next r consumer)

abbrev idle : System ℕ
idle = record {
  ring = top;
  producer = Producer.start;
  consumer = Consumer.start;
  sent = [];
  received = [];
}

-- The producer pushes 5 and is about to compare for 6; the consumer is about to compare.
abbrev race : List (Option ℕ)
race = some 5 ∷ some 5 ∷ some 5 ∷ some 5 ∷ none ∷ none ∷ some 6 ∷ some 6 ∷ some 6 ∷ []

exchange_fifo_example :
    (xs : List ℕ) × (map some (drive race idle).sent ≡ (drive race idle).received ++ map some xs)
    × Holds (drive race idle).ring xs
exchange_fifo_example = exchange_fifo top-Holds (drive-Reach race here)

slots_disjoint_example : bit_and 0 1 ≢ bit_and 0xffff_ffff 1
unfolding drive produce consume
slots_disjoint_example =
    slots_disjoint {x = 6} {tail = 0} {seen_head = 0xffff_ffff} {head = 0xffff_ffff} {seen_tail = 0}
      top-Holds (drive-Reach race here) refl (omega arith) refl (omega arith)
