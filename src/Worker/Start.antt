-- ===== src/Worker/Start.antt =====
-- `gmk_worker_pool_start` of src/worker.c, with threads that cannot all be created.
use mathlib.Core.List.{append-nil}
use ggmk.Base.{
  ℕ, ◌≡◌, ◌∙◌, refl, ap, Bool, true, false, List, [], ◌∷◌, ◌++◌, map, if◌then◌else◌, Bool-cases,
  inl, inr,
}
use ggmk.Rc.{Rc, ok, minus_one}
use ggmk.Worker.Pool.{Worker, started, wake_all, start_from, pool_start}

-- The threads of the workers can be created.
abbrev pub AllCreated : (ℕ → Bool) → List Worker → Type 0
AllCreated created [] = Unit
AllCreated created (w ∷ workers) = (created w.id ≡ true) × AllCreated created workers

-- The thread of the first worker, if there is one, cannot be created.
abbrev pub FirstFails : (ℕ → Bool) → List Worker → Type 0
FirstFails created [] = Unit
FirstFails created (w ∷ workers) = created w.id ≡ false

-- the workers that are parked
unfoldable pub sleepers : List Worker → List ℕ
sleepers [] = []
sleepers (w ∷ workers) = if w.parked then w.id ∷ sleepers workers else sleepers workers

wake_all-sleepers : (workers : List Worker) → wake_all workers ≡ sleepers workers
unfolding wake_all sleepers
wake_all-sleepers [] = refl
wake_all-sleepers (w ∷ workers) =
    let rest = wake_all-sleepers workers in
    elim (Bool-cases w.parked) [
      | inl parked ↦ rw (parked, rest) refl
      | inr awake ↦ rw (awake, rest) refl
    ]

-- what the call leaves and returns, and the workers that it wakes
abbrev pub start_result : List Worker → List Worker → Rc × List Worker × List ℕ
start_result before [] = (ok, before, [])
start_result before (w ∷ workers) = (
  minus_one,
  map (λ (v : Worker). record v { running = false }) before
      ++ record w { running = true } ∷ workers,
  sleepers before,
)

append-assoc_one :
    (xs : List Worker) (x : Worker) (ys : List Worker) → (xs ++ x ∷ []) ++ ys ≡ xs ++ x ∷ ys
append-assoc_one [] x ys = refl
append-assoc_one (y ∷ xs) x ys = ap (λ zs. y ∷ zs) (append-assoc_one xs x ys)

start_from_lem :
    (created : ℕ → Bool) (before good rest : List Worker)
    → AllCreated created good
    → FirstFails created rest
    → start_from created before (good ++ rest) ≡ start_result (before ++ map started good) rest
unfolding start_from
start_from_lem created before [] [] all fails = rw (append-nil before) refl
start_from_lem created before [] (w ∷ rest) all fails =
    rw (start_from, fails, append-nil before, wake_all-sleepers before) refl
start_from_lem created before (w ∷ good) rest (yes_created, all) fails =
    rw (start_from, yes_created)
      (start_from_lem created (before ++ started w ∷ []) good rest all fails
        ∙ ap (λ ws. start_result ws rest) (append-assoc_one before (started w) (map started good)))

-- `gmk_worker_pool_start` returns 0 with all workers told to run, if their threads can all be created; at the
-- first that cannot, it returns -1, tells those before it to stop again, wakes those of them that are parked,
-- leaves that worker told to run, and does not touch those behind.
pub pool_start_lem :
    (created : ℕ → Bool) (good rest : List Worker)
    → AllCreated created good
    → FirstFails created rest
    → pool_start created (good ++ rest)
      ≡ start_result (map (λ (w : Worker). record w { running = true }) good) rest
unfolding pool_start
pool_start_lem created good rest all fails = start_from_lem created [] good rest all fails
