-- ===== src/Sched/Rq/Spec.antt =====
-- What push and the weighted pop of src/sched_rq.c promise, of lanes that are a counter and a list.
use ggmk.Base.{
  ℕ, zero, suc, ◌≡◌, refl, ap, Bool-cases, inl, inr, ◌++◌, length, Option, none, some, List, [],
  ◌∷◌, add32, ltb, if◌then◌else◌,
}
use ggmk.Rc.{Rc, ok, minus_one}

module _ {ℓ} where
  abbrev pub Lanes : Type ℓ → Type ℓ
  Lanes A = List (ℕ × List A)

module _ {ℓ} {A : Type ℓ} where
  abbrev pub keep : ℕ × List A → Option (A × Lanes A) → Option (A × Lanes A)
  keep lane none = none
  keep lane (some (x, lanes)) = some (x, lane ∷ lanes)

  -- the first element of the first lane that is not empty and has weight left
  unfoldable pub take_weighted : List ℕ → Lanes A → Option (A × Lanes A)
  take_weighted [] lanes = none
  take_weighted (w ∷ ws) [] = none
  take_weighted (w ∷ ws) ((c, []) ∷ lanes) = keep (c, []) (take_weighted ws lanes)
  take_weighted (w ∷ ws) ((c, x ∷ xs) ∷ lanes) =
      let rest = keep (c, x ∷ xs) (take_weighted ws lanes) in
      if ltb c w then some (x, (add32 c 1, xs) ∷ lanes) else rest

  -- the first element of the first lane that is not empty
  unfoldable pub take_any : Lanes A → Option (A × Lanes A)
  take_any [] = none
  take_any ((c, []) ∷ lanes) = keep (c, []) (take_any lanes)
  take_any ((c, x ∷ xs) ∷ lanes) = some (x, (add32 c 1, xs) ∷ lanes)

  unfoldable pub reset : Lanes A → Lanes A
  reset [] = []
  reset ((c, xs) ∷ lanes) = (0, xs) ∷ reset lanes

  -- the element found and the lanes left, of a search in `lanes`
  abbrev pub settle : Lanes A → Option (A × Lanes A) → Option A × Lanes A
  settle lanes none = (none, lanes)
  settle lanes (some (x, lanes')) = (some x, lanes')

  abbrev pub or_any : Lanes A → Option (A × Lanes A) → Option A × Lanes A
  or_any lanes none = settle (reset lanes) (take_any (reset lanes))
  or_any lanes (some (x, lanes')) = (some x, lanes')

  -- By weight, and otherwise from the first lane that has anything, with the counters set to 0.
  unfoldable pub pop : List ℕ → Lanes A → Option A × Lanes A
  pop ws lanes = or_any lanes (take_weighted ws lanes)

  -- A lane takes an element if it is shorter than its capacity.
  unfoldable pub push : List ℕ → Lanes A → A → ℕ → Rc × Lanes A
  push [] lanes x i = (minus_one, lanes)
  push (cap ∷ caps) [] x i = (minus_one, [])
  push (cap ∷ caps) ((c, xs) ∷ lanes) x zero =
      if ltb (length xs) cap then (ok, (c, xs ++ x ∷ []) ∷ lanes) else (minus_one, (c, xs) ∷ lanes)
  push (cap ∷ caps) ((c, xs) ∷ lanes) x (suc i) =
      let (rc, lanes') = push caps lanes x i in (rc, (c, xs) ∷ lanes')

  pub length-push :
      (caps : List ℕ) (lanes : Lanes A) (x : A) (i : ℕ)
      → length (push caps lanes x i).1 ≡ length lanes
  unfolding push
  length-push [] lanes x i = refl
  length-push (cap ∷ caps) [] x i = refl
  length-push (cap ∷ caps) ((c, xs) ∷ lanes) x zero = elim (Bool-cases (ltb (length xs) cap)) [
    | inl room ↦ rw room refl
    | inr full ↦ rw full refl
  ]
  length-push (cap ∷ caps) ((c, xs) ∷ lanes) x (suc i) = ap suc (length-push caps lanes x i)
