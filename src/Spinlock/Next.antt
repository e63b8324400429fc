-- ===== src/Spinlock/Next.antt =====
-- What a turn of a thread at the lock of include/ggmk/arch/spinlock.h leaves.
use ggmk.Base.{
  ℕ, suc, ◌^◌, ◌≤◌, ◌<◌, ◌≡◌, ◌≢◌, ◌⊎◌, ◌∙◌, refl, sym, ap, inl, inr, arith, true, false, ◌==◌,
  Bool-cases,
}
use mathlib.Core.Path.{fun_ext}
use ggmk.Spinlock.{Place, outside, leaving, Turn, System, update}
use ggmk.Spinlock.Order.{Ordered}

-- What a turn of a thread leaves: the same order, or one with the first of the threads gone.
pub record Next (n : ℕ) (s : System) (m : Turn) (first last : ℕ) (owner : ℕ → ℕ) (t : System)
    : Type 0 where
  pub first' : ℕ
  pub last' : ℕ
  pub owner' : ℕ → ℕ
  pub ordered : Ordered n t first' last' owner'
  pub longer : last ≤ last'
  pub agrees : (k : ℕ) → k < last → owner' k ≡ owner k
  pub gone :
      (first' ≡ first)
      ⊎ ((first' ≡ suc first)
          × (m.thread ≡ owner first)
          × (first < last)
          × (current : ℕ) × (s.place m.thread ≡ leaving current))

module _ {n : ℕ} {s : System} {first last : ℕ} {owner : ℕ → ℕ} (few : n ≤ 2 ^ 32)
    (o : Ordered n s first last owner) (m : Turn) (lt : m.thread < n) where
  abbrev i : ℕ
  i = m.thread

  still : (p : Place) → s.place i ≡ p → update s.place i p ≡ s.place
  still p e = fun_ext (λ j. elim (Bool-cases (i == j)) [
    | inl same ↦ let f : i ≡ j = ground arith in rw same (sym e ∙ ap s.place f)
    | inr other ↦ rw other refl
  ])

  unmoved : Next n s m first last owner s
  unmoved = record {
    first' = first;
    last' = last;
    owner' = owner;
    ordered = o;
    longer = omega arith;
    agrees = λ k below. refl;
    gone = inl refl;
  }

  pub stays :
      (p : Place)
      → s.place i ≡ p
      → Next n s m first last owner (record { lock = s.lock; place = update s.place i p })
  stays p e = rw (still p e) unmoved

  -- what a thread that does not move keeps
  pub untouched : (p : Place) (j : ℕ) → i ≢ j → update s.place i p j ≡ s.place j
  untouched p j ne = let e : (i == j) ≡ false = ground arith in rw e refl

  pub touched : (p : Place) → update s.place i p i ≡ p
  touched p = let e : (i == i) ≡ true = ground arith in rw e refl

  -- the threads at the lock are below `n`
  pub still_below : (p : Place) (j : ℕ) → update s.place i p j ≢ outside → j < n
  still_below p j there = elim (Bool-cases (i == j)) [
    | inl same ↦ let e : i ≡ j = ground arith in omega (arith, lt)
    | inr other ↦ o.bounded j (λ out. there (untouched p j (λ e. ground arith) ∙ out))
  ]
