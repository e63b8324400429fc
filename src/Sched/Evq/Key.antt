-- ===== src/Sched/Evq/Key.antt =====
-- What `evq_key` of src/sched_evq.c orders by.
use ggmk.Base.{ℕ, ◌+◌, ◌*◌, ◌%◌, ◌^◌, ◌≤◌, ◌<◌, ◌≡◌, ◌↔◌, ◌⊎◌, arith, u32_mod, bit_or}
use ggmk.Bits.{bit_or-fields, bit_and-mask, bit_or-low}
use ggmk.Sched.Evq.{evq_key, tick_of}
use ggmk.Task.{Task, priority}

pub priority_lem : (flags : ℕ) → priority flags ≡ flags % 4
unfolding priority
priority_lem flags = ground (arith, bit_and-mask 2 flags)

-- the tick and the priority
pub evq_key_front :
    (t : Task)
    → bit_or (t.meta0 % u32_mod * 2 ^ 32) (priority t.flags * 2 ^ 16)
      ≡ t.meta0 % u32_mod * 2 ^ 32 + t.flags % 4 * 2 ^ 16
evq_key_front t =
    let e = priority_lem t.flags in
    rw e (bit_or-fields 32 (t.meta0 % u32_mod) (t.flags % 4 * 2 ^ 16) (omega arith))

-- Up to number 2 ^ 16 the three fields do not overlap.
pub evq_key_fields :
    (t : Task) (seq : ℕ)
    → seq < 2 ^ 16
    → evq_key t seq ≡ t.meta0 % u32_mod * 2 ^ 32 + t.flags % 4 * 2 ^ 16 + seq
unfolding evq_key
evq_key_fields t seq h =
    let joined : t.meta0 % u32_mod * 2 ^ 32 + t.flags % 4 * 2 ^ 16
        ≡ (t.meta0 % u32_mod * 2 ^ 16 + t.flags % 4) * 2 ^ 16 =
      omega arith in
    rw (evq_key_front t, joined) (bit_or-fields 16 (t.meta0 % u32_mod * 2 ^ 16 + t.flags % 4) seq h)

-- For numbers below 2 ^ 16 the key orders by the tick, then the priority, then the number.
pub evq_key_order :
    (t u : Task) (m n : ℕ)
    → m < 2 ^ 16
    → n < 2 ^ 16
    → (evq_key t m < evq_key u n) ↔ (
        (t.meta0 % u32_mod < u.meta0 % u32_mod)
        ⊎ ((t.meta0 % u32_mod ≡ u.meta0 % u32_mod)
            × ((t.flags % 4 < u.flags % 4) ⊎ ((t.flags % 4 ≡ u.flags % 4) × (m < n)))))
evq_key_order t u m n p q = ground (arith, evq_key_fields t m p, evq_key_fields u n q)

-- The due tick of a key is that of the task, whatever its number.
pub tick_of-evq_key :
    (t : Task) (seq : ℕ) → seq < u32_mod → tick_of (evq_key t seq) ≡ t.meta0 % u32_mod
unfolding evq_key
tick_of-evq_key t seq h =
    let low = bit_or-low 32 (t.meta0 % u32_mod) (t.flags % 4 * 2 ^ 16) seq (omega arith) h in
    rw (evq_key_front t) (omega (arith, low.0, low.1))

-- From number 2 ^ 18 on, a task is behind each task of the same tick that has a number below 2 ^ 16,
-- whatever their priorities.
pub evq_key-overflows :
    (t u : Task) (m n : ℕ)
    → t.meta0 % u32_mod ≡ u.meta0 % u32_mod
    → 2 ^ 18 ≤ m
    → m < u32_mod
    → n < 2 ^ 16
    → evq_key u n < evq_key t m
unfolding evq_key
evq_key-overflows t u m n same big h small =
    let low = bit_or-low 32 (t.meta0 % u32_mod) (t.flags % 4 * 2 ^ 16) m (omega arith) h in
    rw (evq_key_front t) (omega (arith, low.0, evq_key_fields u n small))
