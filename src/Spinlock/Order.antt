-- ===== src/Spinlock/Order.antt =====
-- The threads at the lock of include/ggmk/arch/spinlock.h stand in the order of their tickets.
use ggmk.Base.{
  ℕ, ◌+◌, ◌%◌, ◌^◌, ◌≤◌, ◌<◌, ◌≡◌, ◌≢◌, ◌⊎◌, ◌∙◌, refl, sym, ap, inl, inr, arith, ◌==◌, Bool-cases,
}
use ggmk.Spinlock.{Spinlock, Place, outside, waiting, inside, leaving, System, start}
use ggmk.Spinlock.Crowd.{crowd, crowd-le, crowd-outside}

-- the thread of a ticket behind the one that is served
abbrev pub Front : Spinlock → Place → Type 0
Front l p = (p ≡ waiting l.serving) ⊎ ((p ≡ inside) ⊎ (p ≡ leaving l.serving))

pub first_there : (l : Spinlock) (p : Place) → Front l p → p ≢ outside
first_there l p (inl e) out = cc
first_there l p (inr (inl e)) out = cc
first_there l p (inr (inr e)) out = cc

pub first_loaded :
    (l : Spinlock) (p : Place) (current : ℕ) → Front l p → p ≡ leaving current → current ≡ l.serving
first_loaded l p current (inl e) f = absurd (cc)
first_loaded l p current (inr (inl e)) f = absurd (cc)
first_loaded l p current (inr (inr e)) f = cc

pub waiting_there : {ticket : ℕ} (p : Place) → p ≡ waiting ticket → p ≢ outside
waiting_there p e out = cc

-- The tickets from `first` up to `last`, counted without a bound, have been drawn by the threads at the
-- lock, `owner` says by which; all but the first of these threads wait.
pub record Ordered (n : ℕ) (s : System) (first last : ℕ) (owner : ℕ → ℕ) : Type 0 where
  pub next : s.lock.next ≡ last % 2 ^ 32
  pub serving : s.lock.serving ≡ first % 2 ^ 32
  pub counted : first + crowd n s.place ≡ last
  pub front : first < last → Front s.lock (s.place (owner first))
  pub behind : (k : ℕ) → first < k → k < last → s.place (owner k) ≡ waiting (k % 2 ^ 32)
  pub bounded : (i : ℕ) → s.place i ≢ outside → i < n
  pub known : (i : ℕ) → s.place i ≢ outside → (k : ℕ) × (first ≤ k) × (k < last) × (owner k ≡ i)

pub start-Ordered : (n : ℕ) → Ordered n start 0 0 (λ k. 0)
start-Ordered n = record {
  next = refl;
  serving = refl;
  counted = omega (arith, crowd-outside n);
  front = λ lt. absurd (omega arith);
  behind = λ k lo hi. absurd (omega arith);
  bounded = λ i ne. absurd (ne refl);
  known = λ i ne. absurd (ne refl);
}

module _ {n : ℕ} {s : System} {first last : ℕ} {owner : ℕ → ℕ} (few : n ≤ 2 ^ 32)
    (o : Ordered n s first last owner) where
  pub short : last ≤ first + 2 ^ 32
  short = omega (arith, o.counted, crowd-le n s.place)

  pub ticket_eq : (a b : ℕ) {q : Place} → q ≡ waiting a → q ≡ waiting b → a ≡ b
  ticket_eq a b p q = cc

  -- the tickets at the lock differ
  pub apart : (k : ℕ) → first < k → k < last → s.lock.serving ≢ k % 2 ^ 32
  apart k lo hi e = omega (arith, short, o.serving)

  pub distinct : (k : ℕ) → first < k → k < last → owner first ≢ owner k
  distinct k lo hi e =
      let g : s.place (owner first) ≡ waiting (k % 2 ^ 32) = ap s.place e ∙ o.behind k lo hi in
      elim (o.front (omega arith)) [
        | inl w ↦ apart k lo hi (ticket_eq s.lock.serving (k % 2 ^ 32) w g)
        | inr (inl w) ↦ absurd (cc)
        | inr (inr w) ↦ absurd (cc)
      ]

  -- a thread that does not wait is the first
  pub not_waiting :
      (j : ℕ)
      → s.place j ≢ outside
      → ((ticket : ℕ) → s.place j ≢ waiting ticket)
      → (owner first ≡ j) × (first < last)
  not_waiting j there done =
      let (k, lo, hi, mine) = o.known j there in
      elim (Bool-cases (first == k)) [
        | inl same ↦ let e : first ≡ k = ground arith in (ap owner e ∙ mine, omega arith)
        | inr later ↦
            absurd (done (k % 2 ^ 32) (ap s.place (sym mine) ∙ o.behind k (ground arith) hi))
      ]
