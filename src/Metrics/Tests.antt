-- ===== src/Metrics/Tests.antt =====
-- The theorems on the counters, at concrete increments.
use ggmk.Base.{◌≡◌, [], ◌∷◌, some, arith}
use ggmk.Metrics.{Metrics, init}
use ggmk.Metrics.Counts.{IsBalanced, inc_all, init-inc_all-IsBalanced}

init-inc_all-IsBalanced_sample :
    (m : Metrics) × (init 2 ≡ some m) × IsBalanced (inc_all m ((0, 3, 7) ∷ (1, 3, 5) ∷ []))
init-inc_all-IsBalanced_sample =
    init-inc_all-IsBalanced 2 ((0, 3, 7) ∷ (1, 3, 5) ∷ []) (omega arith) (omega arith) (omega arith)
