-- ===== src/Spinlock/Crowd.antt =====
-- How many threads stand at the lock of include/ggmk/arch/spinlock.h.
use ggmk.Base.{ℕ, zero, suc, ◌+◌, ◌≤◌, ◌<◌, ◌≡◌, refl, inl, inr, arith, ◌==◌, Bool-cases}
use ggmk.Spinlock.{Place, outside, waiting, inside, leaving, update}

-- 1 for a thread at the lock
abbrev pub at_lock : Place → ℕ
at_lock outside = 0
at_lock (waiting ticket) = 1
at_lock inside = 1
at_lock (leaving current) = 1

pub crowd : ℕ → (ℕ → Place) → ℕ
crowd zero place = 0
crowd (suc n) place = crowd n place + at_lock (place n)

pub crowd-le : (n : ℕ) (place : ℕ → Place) → crowd n place ≤ n
unfolding crowd
crowd-le zero place = omega arith
crowd-le (suc n) place = ground (arith, crowd-le n place)

crowd-update_of_le :
    (n : ℕ) (place : ℕ → Place) (i : ℕ) (p : Place)
    → n ≤ i
    → crowd n (update place i p) ≡ crowd n place
unfolding crowd
crowd-update_of_le zero place i p h = refl
crowd-update_of_le (suc n) place i p h = ground (arith, crowd-update_of_le n place i p)

pub crowd-update :
    (n : ℕ) (place : ℕ → Place) (i : ℕ) (p : Place)
    → i < n
    → crowd n (update place i p) + at_lock (place i) ≡ crowd n place + at_lock p
unfolding crowd
crowd-update zero place i p h = absurd (omega arith)
crowd-update (suc n) place i p h = elim (Bool-cases (i == n)) [
  | inl last ↦
      let e : i ≡ n = ground arith in
      rw (last, e) (omega (arith, crowd-update_of_le n place n p (omega arith)))
  | inr below ↦ rw below (omega (arith, crowd-update n place i p (ground arith)))
]

pub crowd-outside : (n : ℕ) → crowd n (λ i. outside) ≡ 0
unfolding crowd
crowd-outside zero = refl
crowd-outside (suc n) = omega (arith, crowd-outside n)
