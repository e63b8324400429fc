-- ===== src/Spinlock/Tests.antt =====
-- Two threads at the lock of include/ggmk/arch/spinlock.h: thread 0 has it, and thread 1 waits.
use ggmk.Base.{ℕ, ◌+◌, ◌%◌, ◌≡◌, refl, true, false, List, [], ◌∷◌, arith}
use ggmk.Spinlock.{waiting, inside, Turn, start, after, run}
use ggmk.Spinlock.Safety.{mutual_exclusion}
use ggmk.Spinlock.Fair.{IsFair}
use ggmk.Spinlock.Liveness.{acquire_returns}

abbrev arrives : ℕ → Turn
arrives i = record { thread = i; enters = true; leaves = false }

abbrev past : List Turn
past = arrives 0 ∷ arrives 1 ∷ arrives 0 ∷ arrives 1 ∷ []

mutual_exclusion_example : ◌≡◌ {A = ℕ} 0 0
unfolding after
mutual_exclusion_example = mutual_exclusion 2 (omega arith) past (omega arith) 0 0 refl refl

-- the two in turn
abbrev turns : ℕ → Turn
turns t = record { thread = t % 2; enters = false; leaves = true }

turns-IsFair : IsFair 2 turns
turns-IsFair = record {
  below = λ t. omega arith;
  again = λ t i lt. ((t + i) % 2, omega arith, refl);
}

acquire_returns_example : (d : ℕ) × ((run (after start past) turns d).place 1 ≡ inside)
unfolding after
acquire_returns_example =
    acquire_returns 2 (omega arith) past (omega arith) 1 1 refl turns turns-IsFair

-- The release of thread 0 takes two of its turns.
enters_at :
    ((run (after start past) turns 3).place 1 ≡ waiting 1)
    × ((run (after start past) turns 4).place 1 ≡ inside)
unfolding after run
enters_at = (refl, refl)
