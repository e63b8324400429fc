-- ===== src/Fifo.antt =====
-- What the rings promise: a queue of bounded length, oldest element first. The rings of the
-- children `Spsc` and `Mpmc` refine it.
use ggmk.Base.{ℕ, ◌≡◌, refl, Option, none, some, List, [], ◌∷◌, ◌++◌, length, ltb, if◌then◌else◌}
use ggmk.Rc.{Rc, ok, minus_one}

-- A call on a ring, and what the caller sees of it.
pub data Op {ℓ} (A : Type ℓ) : Type ℓ where
  put : A → Op A
  get : Op A

abbrev pub Reply {ℓ} : Type ℓ → Type ℓ
Reply A = Rc × Option A

module _ {ℓ} {A : Type ℓ} where
  unfoldable pub step : ℕ → List A → Op A → Reply A × List A
  step cap xs (put x) =
      if ltb (length xs) cap then ((ok, none), xs ++ x ∷ []) else ((minus_one, none), xs)
  step cap [] get = ((minus_one, none), [])
  step cap (x ∷ xs) get = ((ok, some x), xs)

  -- The replies to a sequence of calls.
  unfoldable pub run {κ} :
      {S : Type κ} → (S → Op A → Reply A × S) → S → List (Op A) → List (Reply A)
  run next s [] = []
  run next s (o ∷ os) = (next s o).0 ∷ run next (next s o).1 os

  -- Two machines whose states stay related and that reply alike are not told apart.
  pub run_simulates {κ κ' μ} :
      {S : Type κ} {T : Type κ'} (Related : S → T → Type μ) (next : S → Op A → Reply A × S)
      (next' : T → Op A → Reply A × T)
      → ((s : S) (t : T) (o : Op A)
          → Related s t
          → ((next s o).0 ≡ (next' t o).0) × Related (next s o).1 (next' t o).1)
      → (s : S) (t : T) → Related s t
      → (os : List (Op A)) → run next s os ≡ run next' t os
  unfolding run
  run_simulates Related next next' sim s t h [] = refl
  run_simulates Related next next' sim s t h (o ∷ os) =
      let (same, h') = sim s t o h in
      rw (same, run_simulates Related next next' sim (next s o).1 (next' t o).1 h' os)
