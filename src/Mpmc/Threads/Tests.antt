-- ===== src/Mpmc/Threads/Tests.antt =====
-- Runs of several threads on a ring of src/ring_mpmc.c, and the theorems at them.
use ggmk.Base.{ℕ, ◌+◌, ◌++◌, some, ◌≢◌, ◌%◌, ◌≡◌, refl, arith, false, List, [], ◌∷◌}
use ggmk.Bits.{IsPow2}
use ggmk.Mpmc.Threads.{push, pop, Turn, start, after}
use ggmk.Mpmc.Threads.Inv.{ticket, AllOnce}
use ggmk.Mpmc.Threads.Fifo.{AllPushed, cells_disjoint, pops_lem}

abbrev two_pow : IsPow2 2
two_pow = record { exponent = 1; power = refl }

abbrev cells : ℕ → ℕ
cells i = 0

-- an access of the thread, whose call is to push 10 more than its number if it is a new one
abbrev pushes_on : ℕ → Turn ℕ
pushes_on i = record { thread = i; call = push (10 + i); spurious = false }

abbrev pops_on : ℕ → Turn ℕ
pops_on i = record { thread = i; call = pop; spurious = false }

-- Both threads load the same tail, and the second loses the compare-and-swap and tries again.
abbrev race : List (Turn ℕ)
race =
    pushes_on 0
    ∷ pushes_on 1
    ∷ pushes_on 0
    ∷ pushes_on 1
    ∷ pushes_on 0
    ∷ pushes_on 1
    ∷ pushes_on 0
    ∷ pushes_on 1
    ∷ pushes_on 1
    ∷ pushes_on 1
    ∷ []

after-race : (after (start 2 cells) race).pushes ≡ 10 ∷ 11 ∷ []
unfolding after
after-race = refl

-- The second thread publishes first, and a third pops both.
abbrev whole : List (Turn ℕ)
whole =
    race
    ++ pushes_on 1
      ∷ pushes_on 1
      ∷ pushes_on 0
      ∷ pushes_on 0
      ∷ pops_on 2
      ∷ pops_on 2
      ∷ pops_on 2
      ∷ pops_on 2
      ∷ pops_on 2
      ∷ pops_on 2
      ∷ pops_on 2
      ∷ pops_on 2
      ∷ pops_on 2
      ∷ pops_on 2
      ∷ pops_on 2
      ∷ pops_on 2
      ∷ []

after-whole : (after (start 2 cells) whole).pops ≡ (0, 10) ∷ (1, 11) ∷ []
unfolding after
after-whole = refl

race-ticket_0 : ticket ((after (start 2 cells) race).place 0) ≡ some 0
unfolding after
race-ticket_0 = refl

race-ticket_1 : ticket ((after (start 2 cells) race).place 1) ≡ some 1
unfolding after
race-ticket_1 = refl

cells_disjoint_example : 0 % 2 ≢ 1 % 2
cells_disjoint_example =
    cells_disjoint 2 two_pow (omega arith) cells race (omega arith) 0 1 0 1 (omega arith)
      race-ticket_0 race-ticket_1

pops_lem_example :
    AllPushed (after (start 2 cells) whole).pushes (after (start 2 cells) whole).pops
    × AllOnce (after (start 2 cells) whole).pops
pops_lem_example = pops_lem 2 two_pow (omega arith) cells whole (omega arith)
