-- ===== src/Mpmc/Refine.antt =====
-- The ring of src/ring_mpmc.c is a bounded queue, also while its counters wrap at 2 ^ 32 and its
-- compare-and-swaps fail spuriously.
use ggmk.Base.{
  ℕ, suc, ◌≡◌, refl, Bool, List, [], ◌∷◌, Option, none, some, arith, length, dec_lt, lt→ltb, le→ltb,
}
use ggmk.Fifo
use ggmk.Fifo.{Op, put, get, Reply}
use ggmk.Rc.{Rc, retry}
use ggmk.Mpmc.{Ring, push, pop, count}
use ggmk.Mpmc.Holds.{Holds}
use ggmk.Mpmc.Slots.{Lands, Lands-ne}
use ggmk.Mpmc.Push.{push-room, push-full, pushed-Holds}
use ggmk.Mpmc.Pop.{pop-some, popped-Holds, pop-none}

-- `tail - head` is the number of elements.
pub count-length {ℓ} : {A : Type ℓ} {r : Ring A} {xs : List A} → Holds r xs → count r ≡ length xs
unfolding count
count-length h = omega (arith, h.head_word, h.counted, h.fits, h.small)

-- A ring and the number of calls made. In call `n` the compare-and-swaps fail as `weak n` says; a
-- call that does not return shows as `retry`, which no call returns.
abbrev pub Machine {ℓ} : Type ℓ → Type ℓ
Machine A = ℕ × Ring A

module _ {ℓ} {A : Type ℓ} where
  abbrev pub after_push : Ring A → ℕ → Option (Rc × Ring A) → Reply A × Machine A
  after_push r n none = ((retry, none), (suc n, r))
  after_push r n (some (rc, r')) = ((rc, none), (suc n, r'))

  abbrev pub after_pop : Ring A → ℕ → Option (Rc × Option A × Ring A) → Reply A × Machine A
  after_pop r n none = ((retry, none), (suc n, r))
  after_pop r n (some (rc, out, r')) = ((rc, out), (suc n, r'))

  module _ (weak : ℕ → List Bool) where
    unfoldable pub step : Machine A → Op A → Reply A × Machine A
    step (n, r) (put x) = after_push r n (push (weak n) r x)
    step (n, r) get = after_pop r n (pop (weak n) r)

    module _ (lands : (n : ℕ) → Lands (weak n)) where
      step_refines :
          (cap : ℕ) (m : Machine A) (xs : List A) (o : Op A)
          → Holds m.1 xs × (m.1.cap ≡ cap)
          → ((step m o).0 ≡ (Fifo.step cap xs o).0)
            × (Holds (step m o).1.1 (Fifo.step cap xs o).1 × ((step m o).1.1.cap ≡ cap))
      unfolding step Fifo.step
      step_refines cap (n, r) xs (put x) (h, e) = elim (dec_lt (length xs) cap) [
        | yes lt ↦
            rw (lt→ltb (length xs) cap lt, push-room h (weak n) x (rw e lt) (lands n))
              (refl, (pushed-Holds h x (rw e lt), e))
        | no ge ↦
            rw
              (
                le→ltb (length xs) cap (omega arith),
                push-full h (weak n) x (Lands-ne (weak n) (lands n)) (omega (arith, h.fits)),
              )
              (refl, (h, e))
      ]
      step_refines cap (n, r) [] get (h, e) =
          rw (pop-none h (weak n) (Lands-ne (weak n) (lands n))) (refl, (h, e))
      step_refines cap (n, r) (x ∷ xs) get (h, e) =
          rw (pop-some h (weak n) (lands n)) (refl, (popped-Holds h, e))

      -- No sequence of calls by one thread tells a ring that holds `xs` from the bounded queue `xs`,
      -- however often the counters wrap and whichever compare-and-swaps fail spuriously, as long as
      -- in each call not all of them do. In particular every call returns.
      pub mpmc_run_refines :
          {r : Ring A} {xs : List A}
          → Holds r xs
          → (os : List (Op A)) → Fifo.run step (0, r) os ≡ Fifo.run (Fifo.step r.cap) xs os
      mpmc_run_refines {r} {xs} h os =
          Fifo.run_simulates (λ m ys. Holds m.1 ys × (m.1.cap ≡ r.cap)) step (Fifo.step r.cap)
            (λ m ys o. step_refines r.cap m ys o) (0, r) xs (h, refl) os
