-- ===== src/Sched/Rq/Refine.antt =====
-- `gmk_rq_pop` of src/sched_rq.c serves its lanes as the specification says.
use ggmk.Base.{
  ℕ, suc, length, ◌≡◌, refl, ap, Bool, true, false, Option, none, some, List, [], ◌∷◌, add32, ltb,
  Bool-cases, inl, inr,
}
use ggmk.Rc.{Rc, ok, minus_one}
use ggmk.Mpmc.Holds.{Holds}
use ggmk.Mpmc.Slots.{Lands, Lands-ne}
use ggmk.Mpmc.Pop.{pop-some, popped-Holds, pop-none}
use ggmk.Sched.Rq.{
  Lane, Rq, weights, keep_lane, first_pass, second_pass, reset_counters, pop, finish, after_first,
}
use ggmk.Sched.Rq.Spec
use ggmk.Sched.Rq.Spec.{Lanes, keep, take_weighted, take_any, reset}
use ggmk.Task.{Task}

-- The lanes hold the tasks and counters of the specification.
abbrev pub Held : Rq → Lanes Task → Type 0
Held [] [] = Unit
Held [] ((c, xs) ∷ lanes) = ⊥
Held (lane ∷ rq) [] = ⊥
Held (lane ∷ rq) ((c, xs) ∷ lanes) = (lane.pop_counter ≡ c) × Holds lane.queue xs × Held rq lanes

pub Held-length : (rq : Rq) (lanes : Lanes Task) → Held rq lanes → length rq ≡ length lanes
Held-length [] [] held = refl
Held-length [] (l ∷ lanes) held = elim held [ ]
Held-length (lane ∷ rq) [] held = elim held [ ]
Held-length (lane ∷ rq) (l ∷ lanes) (e, h, held) = ap suc (Held-length rq lanes held)

-- A pass over `rq` ends as the specification says.
abbrev Found : Rq → Option (Option Task × Rq) → Option (Task × Lanes Task) → Type 0
Found rq r none = r ≡ some (none, rq)
Found rq r (some (x, lanes)) = (rq' : Rq) × (r ≡ some (some x, rq')) × Held rq' lanes

Found-keep :
    (lane : Lane) (rq : Rq) (c : ℕ) (xs : List Task) (r : Option (Option Task × Rq))
    (s : Option (Task × Lanes Task))
    → lane.pop_counter ≡ c
    → Holds lane.queue xs
    → Found rq r s
    → Found (lane ∷ rq) (keep_lane lane r) (keep (c, xs) s)
Found-keep lane rq c xs r none e h f = rw f
Found-keep lane rq c xs r (some (x, lanes)) e h (rq', f, held) = (lane ∷ rq', rw f, (e, h, held))

-- what `gmk_rq_pop` returns for the task that it finds
abbrev pub reply : Option Task → Rc × Option Task
reply none = (minus_one, none)
reply (some task) = (ok, some task)

abbrev Popped : Option (Rc × Option Task × Rq) → Option Task × Lanes Task → Type 0
Popped r (out, lanes) = (rq' : Rq) × (r ≡ some ((reply out).0, (reply out).1, rq')) × Held rq' lanes

module _ (weak : List Bool) (lands : Lands weak) where
  first_pass-Found :
      (ws : List ℕ) (rq : Rq) (lanes : Lanes Task)
      → Held rq lanes
      → Found rq (first_pass weak ws rq) (take_weighted ws lanes)
  unfolding first_pass take_weighted
  first_pass-Found [] rq lanes held = refl
  first_pass-Found (w ∷ ws) [] [] held = refl
  first_pass-Found (w ∷ ws) [] (l ∷ lanes) held = elim held [ ]
  first_pass-Found (w ∷ ws) (lane ∷ rq) [] held = elim held [ ]
  first_pass-Found (w ∷ ws) (lane ∷ rq) ((c, []) ∷ lanes) (e, h, held) =
      let rest = Found-keep lane rq c [] _ _ e h (first_pass-Found ws rq lanes held) in
      elim (Bool-cases (ltb lane.pop_counter w)) [
        | inl under ↦ rw (under, pop-none h weak (Lands-ne weak lands)) rest
        | inr over ↦ rw over rest
      ]
  first_pass-Found (w ∷ ws) (lane ∷ rq) ((c, x ∷ xs) ∷ lanes) (e, h, held) =
      let rest = Found-keep lane rq c (x ∷ xs) _ _ e h (first_pass-Found ws rq lanes held) in
      elim (Bool-cases (ltb c w)) [
        | inl under ↦
            let under' : ltb lane.pop_counter w ≡ true = rw e under in
            rw (under', under, pop-some h weak lands)
              (_, refl, (ap (λ (t : ℕ). add32 t 1) e, popped-Holds h, held))
        | inr over ↦ let over' : ltb lane.pop_counter w ≡ false = rw e over in rw (over', over) rest
      ]

  second_pass-Found :
      (rq : Rq) (lanes : Lanes Task)
      → Held rq lanes
      → Found rq (second_pass weak rq) (take_any lanes)
  unfolding second_pass take_any
  second_pass-Found [] [] held = refl
  second_pass-Found [] (l ∷ lanes) held = elim held [ ]
  second_pass-Found (lane ∷ rq) [] held = elim held [ ]
  second_pass-Found (lane ∷ rq) ((c, []) ∷ lanes) (e, h, held) =
      rw (pop-none h weak (Lands-ne weak lands), second_pass)
        (Found-keep lane rq c [] _ _ e h (second_pass-Found rq lanes held))
  second_pass-Found (lane ∷ rq) ((c, x ∷ xs) ∷ lanes) (e, h, held) =
      rw (pop-some h weak lands, second_pass)
        (_, refl, (ap (λ (t : ℕ). add32 t 1) e, popped-Holds h, held))

  reset-Held :
      (rq : Rq) (lanes : Lanes Task) → Held rq lanes → Held (reset_counters rq) (reset lanes)
  unfolding reset_counters reset
  reset-Held [] [] held = tt
  reset-Held [] (l ∷ lanes) held = elim held [ ]
  reset-Held (lane ∷ rq) [] held = elim held [ ]
  reset-Held (lane ∷ rq) (l ∷ lanes) (e, h, held) = (refl, h, reset-Held rq lanes held)

  finish-Popped :
      (rq : Rq) (lanes : Lanes Task) (r : Option (Option Task × Rq))
      (s : Option (Task × Lanes Task))
      → Held rq lanes
      → Found rq r s
      → Popped (finish r) (Spec.settle lanes s)
  finish-Popped rq lanes r none held f = (rq, rw f, held)
  finish-Popped rq lanes r (some (x, lanes')) held (rq', f, held') = (rq', rw f, held')

  after_first-Popped :
      (rq : Rq) (lanes : Lanes Task) (r : Option (Option Task × Rq))
      (s : Option (Task × Lanes Task))
      → Held rq lanes
      → Found rq r s
      → Popped (after_first weak r) (Spec.or_any lanes s)
  after_first-Popped rq lanes r none held f =
      let held' = reset-Held rq lanes held in
      rw f (
        finish-Popped (reset_counters rq) (reset lanes) _ _ held'
          (second_pass-Found (reset_counters rq) (reset lanes) held'))
  after_first-Popped rq lanes r (some (x, lanes')) held (rq', f, held') = (rq', rw f, held')

  -- A ready queue whose rings hold `lanes` serves the task that the specification chooses, returns 0
  -- exactly when there is one, and holds the lanes that the specification leaves; every call returns.
  pub rq_pop_lem :
      (rq : Rq) (lanes : Lanes Task)
      → Held rq lanes
      → (rq' : Rq) × (pop weak rq
          ≡ some ((reply (Spec.pop weights lanes).0).0, (reply (Spec.pop weights lanes).0).1, rq'))
        × Held rq' (Spec.pop weights lanes).1
  unfolding pop Spec.pop
  rq_pop_lem rq lanes held =
      after_first-Popped rq lanes (first_pass weak weights rq) (take_weighted weights lanes) held
        (first_pass-Found weights rq lanes held)
