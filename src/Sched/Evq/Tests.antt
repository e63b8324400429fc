-- ===== src/Sched/Evq/Tests.antt =====
-- The theorems on the event queue, at a concrete heap.
use ggmk.Base.{
  true, ℕ, zero, suc, ◌*◌, ◌%◌, ◌^◌, ◌≤◌, ◌<◌, ◌≡◌, ◌↔◌, ◌⊎◌, refl, [], ◌∷◌, Option, some, arith,
  u32_mod, Perm,
}
use ggmk.Rc.{ok}
use ggmk.Sched.Evq.{Entry, Evq, blank, push, pop_due, evq_key, tick_of, parent}
use ggmk.Sched.Evq.Order.{key}
use ggmk.Sched.Evq.Key.{evq_key_order, evq_key-overflows, tick_of-evq_key}
use ggmk.Sched.Evq.Holds.{IsValid, entries, numbered, Counts, evq_push_lem}
use ggmk.Sched.Evq.Pop.{Due, found_rc, found_task, evq_pop_due_lem}
use ggmk.Task.{Task}

-- a task of priority 1 that is due at tick 5
abbrev timer : Task
timer = record blank.task { flags = 1; meta0 = 5 }

-- two entries due at ticks 3 and 5, with room for a third
abbrev evq : Evq
evq = record {
  heap =
      record { key = 3 * 2 ^ 32; task = blank.task }
      ∷ record { key = 5 * 2 ^ 32; task = blank.task }
      ∷ blank
      ∷ [];
  count = 2;
  cap = 3;
  next_seq = 2;
}

evq-IsValid : IsValid evq
evq-IsValid = record {
  sized = refl;
  small = omega arith;
  within = omega arith;
  ordered = λ c p q. ordered c p q;
}
  where
    ordered : (c : ℕ) → 0 < c → c < 2 → key evq.heap (parent c) ≤ key evq.heap c
    ordered zero p q = absurd (omega arith)
    ordered (suc zero) p q = omega arith
    ordered (suc (suc c)) p q = absurd (omega arith)

evq_push_lem_example :
    (evq' : Evq) × (push evq timer ≡ some (ok, evq'))
    × IsValid evq'
    × Perm (entries evq') (numbered timer 2 ∷ entries evq)
    × Counts evq evq' true
evq_push_lem_example = evq_push_lem evq-IsValid timer

evq_pop_due_lem_example :
    (found : Option Entry) × (evq' : Evq) × (pop_due evq 3
      ≡ some (found_rc found, found_task found, evq'))
    × IsValid evq'
    × Due evq 3 found evq'
evq_pop_due_lem_example = evq_pop_due_lem evq-IsValid 3

evq_key_order_sample : (evq_key timer 7 < evq_key timer 8) ↔ (
    (5 % u32_mod < 5 % u32_mod)
    ⊎ ((timer.meta0 % u32_mod ≡ timer.meta0 % u32_mod)
        × ((timer.flags % 4 < 1 % 4) ⊎ ((timer.flags % 4 ≡ timer.flags % 4) × (7 < 8)))))
evq_key_order_sample = evq_key_order timer timer 7 8 (omega arith) (omega arith)

tick_of-evq_key_sample : tick_of (evq_key timer 0xffff_ffff) ≡ 5
tick_of-evq_key_sample = tick_of-evq_key timer 0xffff_ffff (omega arith)

evq_key-overflows_example :
    evq_key (record timer { flags = 3 }) 9 < evq_key (record timer { flags = 0 }) (2 ^ 18)
evq_key-overflows_example =
    evq_key-overflows (record timer { flags = 0 }) (record timer { flags = 3 }) (2 ^ 18) 9 refl
      (omega arith) (omega arith) (omega arith)
