-- ===== src/Mpmc/Pop.antt =====
-- `gmk_ring_mpmc_pop` on a ring that holds an element.
use native.Mathlib.Nat.{mod-lt, add-zero, add-mod_right}
use ggmk.Base.{
  ℕ, suc, ◌+◌, ◌%◌, ◌<◌, ◌≡◌, ◌≢◌, refl, sym, ◌∙◌, ap, Bool, true, false, List, [], ◌∷◌, none, some,
  arith, length-set, get_elem?, set, get_elem?-set_self, get_elem?-set_ne, u32_mod, add32, dec_lt,
  bit_and,
}
use ggmk.Bits.Wrap.{wrap-add-mod, IsPow2-pos}
use ggmk.Rc.{ok, minus_one}
use ggmk.Mpmc.{Ring, pop_loop, pop}
use ggmk.Mpmc.Holds.{Holds}
use ggmk.Mpmc.Slots.{Lands, head_slot, slot-ne}

module _ {ℓ} {A : Type ℓ} {r : Ring A} {x : A} {xs : List A} (h : Holds r (x ∷ xs)) where
  open h use {pow2, small, two, masked, slots, head_word, counted, fits, filled, free}

  -- the ring after a pop of `x`
  abbrev pub popped : Ring A
  popped = record r {
    head = add32 r.head 1;
    buf = set r.buf (bit_and r.head r.mask) (record { seq = add32 r.head r.cap; value = x });
  }

  head_cell :
      get_elem? r.buf (bit_and r.head r.mask)
      ≡ some (record { seq = (r.head + 1) % u32_mod; value = x })
  head_cell =
      let one : r.head + 0 + 1 ≡ r.head + 1 = omega arith in
      let zeroth : (r.head + 0) % r.cap ≡ r.head % r.cap = rw add-zero in
      rw (head_slot h, ← zeroth, filled 0 x refl (omega arith), one)

  -- A pop goes through in the first round whose compare-and-swap does not fail.
  pub pop-some : (weak : List Bool) → Lands weak → pop weak r ≡ some (ok, some x, popped)
  unfolding pop pop_loop
  pop-some [] lands = elim lands [ ]
  pop-some (true ∷ weak) lands =
      let again : pop_loop weak r r.head ≡ some (ok, some x, popped) = pop-some weak lands in
      ground (arith, head_cell)
  pop-some (false ∷ weak) lands = ground (arith, head_cell)

  get_elem?-popped-ne :
      (j : ℕ)
      → r.head % r.cap ≢ (r.head + j) % r.cap
      → get_elem? popped.buf ((r.head + j) % r.cap) ≡ get_elem? r.buf ((r.head + j) % r.cap)
  get_elem?-popped-ne j ne = rw (head_slot h) (get_elem?-set_ne r.buf _ ne)

  ne-later : (j : ℕ) → 0 < j → j < r.cap → r.head % r.cap ≢ (r.head + j) % r.cap
  ne-later j pos lt e =
      slot-ne h 0 j pos (omega arith) (sym e ∙ ap (λ (t : ℕ). t % r.cap) (sym (add-zero r.head)))

  later_slot : (i : ℕ) → (add32 r.head 1 + i) % r.cap ≡ (r.head + suc i) % r.cap
  later_slot i = wrap-add-mod pow2 small (r.head + 1) i ∙ ap (λ (t : ℕ). t % r.cap) (omega arith)

  -- the cell that the pop frees is the last of the next lap
  freed :
      (i : ℕ)
      → suc i ≡ r.cap
      → get_elem? popped.buf ((r.head + suc i) % r.cap)
        ≡ some (record { seq = (r.head + suc i) % u32_mod; value = x })
  freed i last =
      rw (last, add-mod_right, head_slot h)
        (get_elem?-set_self r.buf (r.head % r.cap) _ (rw slots (mod-lt _ (IsPow2-pos pow2))))

  -- It holds the others, and the cell is free for the next lap.
  pub popped-Holds : Holds popped xs
  popped-Holds = record {
    pow2 = pow2;
    small = small;
    two = two;
    masked = masked;
    slots = rw length-set slots;
    head_word = omega arith;
    counted = omega arith;
    fits = omega arith;
    filled = λ i y e lt.
        let number : (add32 r.head 1 + i + 1) % u32_mod ≡ (r.head + suc i + 1) % u32_mod =
          omega arith in
        rw
          (
            later_slot i,
            get_elem?-popped-ne (suc i) (ne-later (suc i) (omega arith) (omega arith)),
            number,
          )
          (filled (suc i) y e (omega arith));
    free = λ i le lt.
        let number : (add32 r.head 1 + i) % u32_mod ≡ (r.head + suc i) % u32_mod = omega arith in
        rw (later_slot i, number)
          (elim (dec_lt (suc i) r.cap) [
            | yes below ↦
                let (a, e) = free (suc i) (omega arith) below in
                (a, rw (get_elem?-popped-ne (suc i) (ne-later (suc i) (omega arith) below)) e)
            | no last ↦ let full_lap : suc i ≡ r.cap = omega arith in (x, freed i full_lap)
          ]);
  }

module _ {ℓ} {A : Type ℓ} {r : Ring A} (h : Holds r []) where
  open h use {pow2, small, two, head_word, free}

  -- An empty ring refuses a pop in its first round.
  pub pop-none : (weak : List Bool) → weak ≢ [] → pop weak r ≡ some (minus_one, none, r)
  unfolding pop pop_loop
  pop-none [] some_round = absurd (some_round refl)
  pop-none (w ∷ weak) some_round =
      let (a, e) = free 0 (omega arith) (omega arith) in
      let number : (r.head + 0) % u32_mod ≡ r.head = omega arith in
      let zeroth : r.head % r.cap ≡ (r.head + 0) % r.cap = rw add-zero in
      let cell : get_elem? r.buf (bit_and r.head r.mask)
          ≡ some (record { seq = r.head; value = a }) =
        rw (head_slot h, zeroth, e, number) in
      ground arith
