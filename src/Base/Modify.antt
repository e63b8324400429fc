-- ===== src/Base/Modify.antt =====
-- One entry of a list changed by a function.
use Prim.Native.Nat.{ℕ, zero, suc, ◌<◌}
use mathlib.Core.Path.{◌≡◌, refl, ap, sym, ◌∙◌}
use mathlib.Core.Logic.{◌≢◌}
use mathlib.Core.Option.{some, some-injective}
use mathlib.Core.List.{List, [], ◌∷◌, map}
use native.Mathlib.Omega.{arith}
use ggmk.Base.Tests.{◌==◌, if◌then◌else◌}
use ggmk.Base.Lists.{length, get_or, get_elem?, set}

-- a change of one entry of an array
module _ {ℓ} {A : Type ℓ} where
  unfoldable pub modify : List A → ℕ → (A → A) → List A
  modify [] i f = []
  modify (x ∷ xs) zero f = f x ∷ xs
  modify (x ∷ xs) (suc i) f = x ∷ modify xs i f

module _ {ℓ} {A : Type ℓ} where
  pub length-modify : (xs : List A) (i : ℕ) (f : A → A) → length (modify xs i f) ≡ length xs
  unfolding modify
  length-modify [] i f = refl
  length-modify (x ∷ xs) zero f = refl
  length-modify (x ∷ xs) (suc i) f = ap suc (length-modify xs i f)

  pub get_or-modify :
      (xs : List A) (i j : ℕ) (f : A → A) (d : A)
      → i < length xs
      → get_or (modify xs i f) j d ≡ (if i == j then f (get_or xs i d) else get_or xs j d)
  unfolding modify
  get_or-modify [] i j f d lt = absurd (omega arith)
  get_or-modify (x ∷ xs) zero zero f d lt = refl
  get_or-modify (x ∷ xs) zero (suc j) f d lt = ground arith
  get_or-modify (x ∷ xs) (suc i) zero f d lt = ground arith
  get_or-modify (x ∷ xs) (suc i) (suc j) f d lt = ground (arith, get_or-modify xs i j f d)

  pub get_elem?-modify_self :
      (xs : List A) (i : ℕ) (f : A → A) (x : A)
      → get_elem? xs i ≡ some x
      → get_elem? (modify xs i f) i ≡ some (f x)
  unfolding modify
  get_elem?-modify_self [] i f x e = absurd (ground arith)
  get_elem?-modify_self (y ∷ xs) zero f x e = ap (λ a. some (f a)) (some-injective y x e)
  get_elem?-modify_self (y ∷ xs) (suc i) f x e = get_elem?-modify_self xs i f x e

  pub get_elem?-modify_ne :
      (xs : List A) {i j : ℕ} (f : A → A) → i ≢ j → get_elem? (modify xs i f) j ≡ get_elem? xs j
  unfolding modify
  get_elem?-modify_ne [] f ne = refl
  get_elem?-modify_ne (x ∷ xs) {i = zero} {j = zero} f ne = absurd (ne refl)
  get_elem?-modify_ne (x ∷ xs) {i = zero} {j = suc j} f ne = refl
  get_elem?-modify_ne (x ∷ xs) {i = suc i} {j = zero} f ne = refl
  get_elem?-modify_ne (x ∷ xs) {i = suc i} {j = suc j} f ne =
      get_elem?-modify_ne xs f (λ e. ne (ap suc e))

module _ {ℓ κ} {A : Type ℓ} {B : Type κ} where
  -- A write that keeps the image under `g` keeps the images of all.
  pub map-set :
      (g : A → B) (xs : List A) (i : ℕ) (v x : A)
      → get_elem? xs i ≡ some x
      → g v ≡ g x
      → map g (set xs i v) ≡ map g xs
  map-set g [] i v x e same = refl
  map-set g (y ∷ xs) zero v x e same =
      ap (λ b. b ∷ map g xs) (same ∙ ap g (sym (some-injective y x e)))
  map-set g (y ∷ xs) (suc i) v x e same = ap (λ bs. g y ∷ bs) (map-set g xs i v x e same)
