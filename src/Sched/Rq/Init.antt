-- ===== src/Sched/Rq/Init.antt =====
-- What `gmk_rq_init` of src/sched_rq.c leaves.
use ggmk.Base.{
  ℕ, zero, suc, ◌+◌, ◌*◌, ◌<◌, ◌≡◌, refl, ap, some, List, [], arith, length, replicate, u32_mod,
}
use ggmk.Bits.{IsPow2}
use ggmk.Mpmc
use ggmk.Mpmc.{cell_stride}
use ggmk.Mpmc.Init.{init_valid}
use ggmk.Sched.Rq.{Rq, init_lanes, init}
use ggmk.Sched.Rq.Spec.{Lanes}
use ggmk.Sched.Rq.Refine.{Held}
use ggmk.Task.{Task}

module _ (cap_per_queue : ℕ) (pages : ℕ → ℕ → List (Mpmc.Cell Task)) (p : IsPow2 cap_per_queue)
    (small : cap_per_queue < u32_mod) (two : 1 < cap_per_queue) where
  -- `n` empty lanes
  abbrev pub empty_lanes : ℕ → Lanes Task
  empty_lanes n = replicate n (0, [])

  init_lanes-Held :
      (n i : ℕ)
      → ((j : ℕ) → j < i + n → length (pages j (cap_per_queue * cell_stride 48)) ≡ cap_per_queue)
      → (rq : Rq) × (init_lanes n i cap_per_queue pages ≡ some rq)
        × Held rq (replicate n (0, []))
        × (length rq ≡ n)
  unfolding init_lanes
  init_lanes-Held zero i given = ([], refl, tt, refl)
  init_lanes-Held (suc n) i given =
      let (ring, done, empty, capacity) =
        init_valid cap_per_queue 48 (pages i) p small two (omega arith) (given i (omega arith)) in
      let (rq, rest, held, size) = init_lanes-Held n (i + 1) (λ j lt. given j (omega arith)) in
      rw (init_lanes, done, rest) (_, refl, (refl, empty, held), ap suc size)

  -- With pages for `cap_per_queue` cells for each of the four lanes, `gmk_rq_init` leaves four empty
  -- lanes with their counters at 0.
  pub rq_init-Held :
      ((j : ℕ) → j < 4 → length (pages j (cap_per_queue * cell_stride 48)) ≡ cap_per_queue)
      → (rq : Rq) × (init cap_per_queue pages ≡ some rq)
        × Held rq (replicate 4 (0, []))
        × (length rq ≡ 4)
  unfolding init
  rq_init-Held given = init_lanes-Held 4 0 (λ j lt. given j (omega arith))
