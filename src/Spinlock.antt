-- ===== src/Spinlock.antt =====
-- include/ggmk/arch/spinlock.h, the ticket lock of hal/x86_baremetal/lock.c, with `n` threads that take
-- it and give it back, one shared access at a time and in any order. The accesses are taken to be
-- sequentially consistent.
pub mod Crowd
pub mod Order
pub mod Next
pub mod Draws
pub mod Moves
pub mod Safety
pub mod Fair
pub mod Waits
pub mod Liveness
mod Tests
use ggmk.Base.{ℕ, zero, suc, ◌+◌, Bool, true, false, List, [], ◌∷◌, ◌==◌, if◌then◌else◌, add32}

-- `gmk_spinlock_t`
pub record Spinlock : Type 0 where
  pub next : ℕ
  pub serving : ℕ

-- `gmk_spinlock_init`
abbrev pub spinlock_init : Spinlock
spinlock_init = record { next = 0; serving = 0 }

-- the add of `gmk_spinlock_acquire`, with the ticket
abbrev pub take_ticket : Spinlock → ℕ × Spinlock
take_ticket l = (l.next, record l { next = add32 l.next 1 })

-- the test of its loop
abbrev pub is_served : Spinlock → ℕ → Bool
is_served l ticket = l.serving == ticket

-- the store of `gmk_spinlock_release`, of the number after the one that it has loaded
abbrev pub serve_next : Spinlock → ℕ → Spinlock
serve_next l current = record l { serving = add32 current 1 }

-- Where a thread stands: outside, in the loop of `gmk_spinlock_acquire`, behind it, or between the load
-- and the store of `gmk_spinlock_release`.
pub data Place : Type 0 where
  outside : Place
  waiting : (ticket : ℕ) → Place
  inside : Place
  leaving : (current : ℕ) → Place

-- A thread that runs, with what it wants of the lock if it is outside or inside.
pub record Turn : Type 0 where
  pub thread : ℕ
  pub enters : Bool
  pub leaves : Bool

-- one access of a thread
unfoldable pub access : Spinlock → Turn → Place → Spinlock × Place
access l m outside =
    let (ticket, l') = take_ticket l in if m.enters then (l', waiting ticket) else (l, outside)
access l m (waiting ticket) = (l, if is_served l ticket then inside else waiting ticket)
access l m inside = (l, if m.leaves then leaving l.serving else inside)
access l m (leaving current) = (serve_next l current, outside)

pub record System : Type 0 where
  pub lock : Spinlock
  pub place : ℕ → Place

abbrev pub update {ℓ} : {A : Type ℓ} → (ℕ → A) → ℕ → A → ℕ → A
update f i a j = if i == j then a else f j

abbrev pub start : System
start = record { lock = spinlock_init; place = λ i. outside }

unfoldable pub step : System → Turn → System
unfolding access
step s m =
    let r = access s.lock m (s.place m.thread) in
    record { lock = r.0; place = update s.place m.thread r.1 }

-- the state after some turns, the first first
unfoldable pub after : System → List Turn → System
unfolding step
after s [] = s
after s (m ∷ ms) = after (step s m) ms

-- the state after the first `t` turns of a schedule
unfoldable pub run : System → (ℕ → Turn) → ℕ → System
unfolding step
run s turns zero = s
run s turns (suc t) = run (step s (turns 0)) (λ k. turns (suc k)) t
