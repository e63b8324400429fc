-- ===== src/Spsc/Refine.antt =====
-- The ring of src/ring_spsc.c is a bounded queue, also while its counters wrap at 2 ^ 32.
use ggmk.Base.{
  ℕ, ◌<◌, ◌≡◌, ◌≢◌, ◌↔◌, true, refl, ◌∙◌, ap, List, [], ◌∷◌, ◌++◌, none, some, arith, length, set,
  add32, dec_lt, bit_and, lt→ltb, le→ltb,
}
use ggmk.Fifo
use ggmk.Fifo.{Op, put, get, Reply}
use ggmk.Rc.{ok, minus_one}
use ggmk.Spsc.{Ring, push, pop, count, full, empty}
use ggmk.Spsc.Holds.{Holds}
use ggmk.Spsc.Slots.{store-Holds, store-slot, publish-Holds, first_slot, release-Holds}

eq_nil {ℓ} : {A : Type ℓ} (xs : List A) → length xs ≡ 0 → xs ≡ []
eq_nil [] e = refl
eq_nil (x ∷ xs) e = absurd (omega arith)

module _ {ℓ} {A : Type ℓ} {r : Ring A} {xs : List A} (h : Holds r xs) where
  open h use {pow2, small, masked, slots, head_word, counted, fits, stored}

  -- `tail - head` is the number of elements.
  pub count-length : count r ≡ length xs
  unfolding count
  count-length = omega arith

  push-room :
      (x : A)
      → length xs < r.cap
      → push r x
        ≡ (ok, record r { buf = set r.buf (bit_and r.tail r.mask) x; tail = add32 r.tail 1 })
  unfolding push
  push-room x room = ground arith

  nil_iff : (length xs ≡ 0) ↔ (xs ≡ [])
  nil_iff = (eq_nil xs, λ e. rw e)

  -- `gmk_ring_spsc_count` is the number of elements, `gmk_ring_spsc_full` says whether there are as
  -- many as slots, and `gmk_ring_spsc_empty` whether there are none.
  pub queries_lem :
      (count r ≡ length xs)
      × ((full r ≡ true) ↔ (length xs ≡ r.cap))
      × ((empty r ≡ true) ↔ (xs ≡ []))
  unfolding full empty
  queries_lem = (
    count-length,
    ground (arith, count-length),
    (λ e. nil_iff.0 (ground (arith, count-length)), λ e. ground (arith, count-length, nil_iff.1 e)),
  )

  -- A push into a ring with room stores the element behind the others.
  pub push-Holds :
      (x : A) → length xs < r.cap → ((push r x).0 ≡ ok) × Holds (push r x).1 (xs ++ x ∷ [])
  push-Holds x room =
      rw (push-room x room) (refl, publish-Holds (store-Holds h x room) room (store-slot h x room))

  -- A push into a full ring is refused and changes nothing.
  pub push-full : (x : A) → length xs ≡ r.cap → push r x ≡ (minus_one, r)
  unfolding push
  push-full x e = ground arith

module _ {ℓ} {A : Type ℓ} {r : Ring A} where
  -- A pop from an empty ring is refused and changes nothing.
  pub pop-empty : Holds r [] → pop r ≡ (minus_one, none, r)
  unfolding pop
  pop-empty h = let same : r.head ≡ r.tail = omega (arith, h.head_word, h.counted) in ground arith

  pop-cons :
      {x : A} {xs : List A}
      → Holds r (x ∷ xs)
      → pop r ≡ (ok, some x, record r { head = add32 r.head 1 })
  unfolding pop
  pop-cons {x} {xs} h =
      let differ : r.head ≢ r.tail = omega (arith, h.counted, h.fits, h.small) in
      ground (arith, first_slot h (omega arith))

  -- A pop takes the oldest element.
  pub pop-Holds :
      {x : A} {xs : List A}
      → Holds r (x ∷ xs)
      → ((pop r).0 ≡ ok) × ((pop r).1 ≡ some x) × Holds (pop r).2 xs
  pop-Holds h = rw (pop-cons h) (refl, refl, release-Holds h)

module _ {ℓ} {A : Type ℓ} where
  -- A call on the ring, with what the caller sees.
  unfoldable pub step : Ring A → Op A → Reply A × Ring A
  step r (put x) = let (rc, r') = push r x in ((rc, none), r')
  step r get = let (rc, out, r') = pop r in ((rc, out), r')

  pub cap-push : (r : Ring A) (x : A) → (push r x).1.cap ≡ r.cap
  unfolding push
  cap-push r x = ground arith

  pub cap-pop : (r : Ring A) → (pop r).2.cap ≡ r.cap
  unfolding pop
  cap-pop r = ground arith

  step_refines :
      (cap : ℕ) (r : Ring A) (xs : List A) (o : Op A)
      → Holds r xs × (r.cap ≡ cap)
      → ((step r o).0 ≡ (Fifo.step cap xs o).0)
        × (Holds (step r o).1 (Fifo.step cap xs o).1 × ((step r o).1.cap ≡ cap))
  unfolding step Fifo.step
  step_refines cap r xs (put x) (h, e) = elim (dec_lt (length xs) cap) [
    | yes lt ↦
        let (done, h') = push-Holds h x (rw e lt) in
        rw (lt→ltb (length xs) cap lt) (ap (λ c. (c, none)) done, (h', cap-push r x ∙ e))
    | no ge ↦
        rw (le→ltb (length xs) cap (omega arith), push-full h x (omega (arith, h.fits)))
          (refl, (h, e))
  ]
  step_refines cap r [] get (h, e) = rw (pop-empty h) (refl, (h, e))
  step_refines cap r (x ∷ xs) get (h, e) =
      let (done, out, h') = pop-Holds h in rw (done, out) (refl, (h', cap-pop r ∙ e))

  -- No sequence of calls tells a ring that holds `xs` from the bounded queue `xs`, however often the
  -- 32-bit counters wrap.
  pub spsc_run_refines :
      {r : Ring A} {xs : List A}
      → Holds r xs
      → (os : List (Op A)) → Fifo.run step r os ≡ Fifo.run (Fifo.step r.cap) xs os
  spsc_run_refines {r} {xs} h os =
      Fifo.run_simulates (λ s ys. Holds s ys × (s.cap ≡ r.cap)) step (Fifo.step r.cap)
        (λ s ys o. step_refines r.cap s ys o) r xs (h, refl) os
