-- ===== src/Spinlock/Safety.antt =====
-- What holds of the lock of include/ggmk/arch/spinlock.h after all turns of its threads.
use ggmk.Base.{ℕ, ◌^◌, ◌≤◌, ◌<◌, ◌≡◌, ◌≢◌, ◌∙◌, sym, ap, Bool, true, false, List, [], ◌∷◌}
use ggmk.Spinlock.{Place, outside, waiting, inside, leaving, Turn, System, start, step, after}
use ggmk.Spinlock.Order.{Ordered, start-Ordered, not_waiting}
use ggmk.Spinlock.Moves.{step-Next}

-- The threads of a state that is reached stand in some order.
abbrev pub IsOrdered : ℕ → System → Type 0
IsOrdered n s = (first : ℕ) × (last : ℕ) × (owner : ℕ → ℕ) × Ordered n s first last owner

-- All turns are those of threads below `n`.
abbrev pub AllBelow : ℕ → List Turn → Type 0
AllBelow n [] = Unit {0}
AllBelow n (m ∷ ms) = (m.thread < n) × AllBelow n ms

pub after-IsOrdered :
    (n : ℕ) (s : System)
    → n ≤ 2 ^ 32
    → IsOrdered n s
    → (ms : List Turn) → AllBelow n ms
    → IsOrdered n (after s ms)
unfolding after
after-IsOrdered n s few ordered [] below = ordered
after-IsOrdered n s few (first, last, owner, o) (m ∷ ms) (lt, below) =
    let r = step-Next few o m lt in
    after-IsOrdered n (step s m) few (r.first', r.last', r.owner', r.ordered) ms below

-- in the critical section, the release included
abbrev pub is_critical : Place → Bool
is_critical outside = false
is_critical (waiting ticket) = false
is_critical inside = true
is_critical (leaving current) = true

critical_there : (p : Place) → is_critical p ≡ true → p ≢ outside
critical_there p c out = let f : false ≡ true = ap is_critical (sym out) ∙ c in cc

critical_done : (p : Place) → is_critical p ≡ true → (ticket : ℕ) → p ≢ waiting ticket
critical_done p c ticket w = let f : false ≡ true = ap is_critical (sym w) ∙ c in cc

-- Of up to 2 ^ 32 threads, after whatever turns, no two are in the critical section together, from the return
-- of gmk_spinlock_acquire to the store of gmk_spinlock_release.
pub mutual_exclusion :
    (n : ℕ)
    → n ≤ 2 ^ 32
    → (ms : List Turn) → AllBelow n ms
    → (i j : ℕ) → is_critical ((after start ms).place i) ≡ true
    → is_critical ((after start ms).place j) ≡ true
    → i ≡ j
mutual_exclusion n few ms below i j ci cj =
    let s = after start ms in
    let (first, last, owner, o) =
      after-IsOrdered n start few (0, 0, (λ k. 0), start-Ordered n) ms below in
    let (mine, some_one) =
      not_waiting few o i (critical_there (s.place i) ci) (critical_done (s.place i) ci) in
    let (yours, some_one') =
      not_waiting few o j (critical_there (s.place j) cj) (critical_done (s.place j) cj) in
    sym mine ∙ yours
