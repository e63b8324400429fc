-- ===== src/Sched/Rq/Lengths.antt =====
-- No operation on the lanes of the ready queue changes how many lanes there are.
use ggmk.Base.{
  ℕ, suc, ◌≡◌, ◌∙◌, refl, ap, Option, none, some, List, [], ◌∷◌, length, ltb, Bool-cases, inl, inr,
}
use ggmk.Sched.Rq.Spec.{Lanes, keep, take_weighted, take_any, reset, settle, or_any, pop}

module _ {ℓ} {A : Type ℓ} where
  -- a search leaves `n` lanes, if it finds an element
  abbrev pub Leaves : ℕ → Option (A × Lanes A) → Type 0
  Leaves n none = Unit
  Leaves n (some (x, lanes)) = length lanes ≡ n

  keep-Leaves :
      (n : ℕ) (lane : ℕ × List A) (r : Option (A × Lanes A))
      → Leaves n r
      → Leaves (suc n) (keep lane r)
  keep-Leaves n lane none l = tt
  keep-Leaves n lane (some (x, lanes)) l = ap suc l

  take_weighted-Leaves :
      (ws : List ℕ) (lanes : Lanes A) → Leaves (length lanes) (take_weighted ws lanes)
  unfolding take_weighted
  take_weighted-Leaves [] lanes = tt
  take_weighted-Leaves (w ∷ ws) [] = tt
  take_weighted-Leaves (w ∷ ws) ((c, []) ∷ lanes) =
      keep-Leaves (length lanes) (c, []) (take_weighted ws lanes) (take_weighted-Leaves ws lanes)
  take_weighted-Leaves (w ∷ ws) ((c, x ∷ xs) ∷ lanes) = elim (Bool-cases (ltb c w)) [
    | inl here ↦ rw here refl
    | inr later ↦ rw later (
        keep-Leaves (length lanes) (c, x ∷ xs) (take_weighted ws lanes)
          (take_weighted-Leaves ws lanes))
  ]

  take_any-Leaves : (lanes : Lanes A) → Leaves (length lanes) (take_any lanes)
  unfolding take_any
  take_any-Leaves [] = tt
  take_any-Leaves ((c, []) ∷ lanes) =
      keep-Leaves (length lanes) (c, []) (take_any lanes) (take_any-Leaves lanes)
  take_any-Leaves ((c, x ∷ xs) ∷ lanes) = refl

  length-reset : (lanes : Lanes A) → length (reset lanes) ≡ length lanes
  unfolding reset
  length-reset [] = refl
  length-reset ((c, xs) ∷ lanes) = ap suc (length-reset lanes)

  length-settle :
      (lanes : Lanes A) (r : Option (A × Lanes A))
      → Leaves (length lanes) r
      → length (settle lanes r).1 ≡ length lanes
  length-settle lanes none l = refl
  length-settle lanes (some (x, lanes')) l = l

  length-or_any :
      (lanes : Lanes A) (r : Option (A × Lanes A))
      → Leaves (length lanes) r
      → length (or_any lanes r).1 ≡ length lanes
  length-or_any lanes none l =
      length-settle (reset lanes) (take_any (reset lanes)) (take_any-Leaves (reset lanes))
      ∙ length-reset lanes
  length-or_any lanes (some (x, lanes')) l = l

  pub length-pop : (ws : List ℕ) (lanes : Lanes A) → length (pop ws lanes).1 ≡ length lanes
  unfolding pop
  length-pop ws lanes = length-or_any lanes (take_weighted ws lanes) (take_weighted-Leaves ws lanes)
