-- ===== src/Mpmc/Push.antt =====
-- `gmk_ring_mpmc_push` on a ring that holds `xs`.
use native.Mathlib.Nat.{mod-lt, add-zero, add-mod_right}
use ggmk.Base.{
  ℕ, ◌+◌, ◌%◌, ◌<◌, ◌≡◌, ◌≢◌, refl, sym, ◌∙◌, Bool, true, false, List, [], ◌∷◌, ◌++◌, some, arith,
  length, length-append, length-set, get_elem?, set, get_elem?-set_self, get_elem?-set_ne,
  get_elem?-append, get_elem?-of_lt, get_elem?-append_self, u32_mod, add32, dec_lt, bit_and,
}
use ggmk.Bits.Wrap.{IsPow2-pos, IsPow2-le}
use ggmk.Rc.{ok, minus_one}
use ggmk.Mpmc.{Ring, push_loop, push}
use ggmk.Mpmc.Holds.{Holds}
use ggmk.Mpmc.Slots.{Lands, tail_slot, slot-ne}

module _ {ℓ} {A : Type ℓ} {r : Ring A} {xs : List A} (h : Holds r xs) where
  open h use {pow2, small, two, masked, slots, head_word, counted, fits, filled, free}

  -- the ring after a push of `x`
  abbrev pub pushed : A → Ring A
  pushed x = record r {
    tail = add32 r.tail 1;
    buf = set r.buf (bit_and r.tail r.mask) (record { seq = add32 r.tail 1; value = x });
  }

  tail_cell :
      length xs < r.cap
      → (a : A) × (get_elem? r.buf (bit_and r.tail r.mask)
          ≡ some (record { seq = r.tail; value = a }))
  tail_cell room =
      let (a, e) = free (length xs) (omega arith) room in (a, rw (tail_slot h, counted) e)

  -- the cell at `tail` of a full ring, one lap behind
  tail_cell-full :
      length xs ≡ r.cap
      → (a : A) × (get_elem? r.buf (bit_and r.tail r.mask)
          ≡ some (record { seq = (r.head + 1) % u32_mod; value = a }))
  tail_cell-full full =
      let (a, e) = get_elem?-of_lt xs 0 (omega arith) in
      let lap : (r.head + length xs) % r.cap ≡ (r.head + 0) % r.cap =
        rw (full, add-mod_right, add-zero) in
      let one : r.head + 0 + 1 ≡ r.head + 1 = omega arith in
      (a, rw (tail_slot h, lap, filled 0 a e (omega arith), one))

  -- With room a push goes through in the first round whose compare-and-swap does not fail.
  pub push-room :
      (weak : List Bool) (x : A)
      → length xs < r.cap
      → Lands weak
      → push weak r x ≡ some (ok, pushed x)
  unfolding push push_loop
  push-room [] x room lands = elim lands [ ]
  push-room (true ∷ weak) x room lands =
      let (a, e) = tail_cell room in
      let again : push_loop weak r x r.tail ≡ some (ok, pushed x) = push-room weak x room lands in
      ground arith
  push-room (false ∷ weak) x room lands = let (a, e) = tail_cell room in ground arith

  -- A full ring refuses in its first round.
  pub push-full :
      (weak : List Bool) (x : A)
      → weak ≢ []
      → length xs ≡ r.cap
      → push weak r x ≡ some (minus_one, r)
  unfolding push push_loop
  push-full [] x some_round full = absurd (some_round refl)
  push-full (w ∷ weak) x some_round full =
      let (a, e) = tail_cell-full full in ground (arith, IsPow2-le pow2 small)

  get_elem?-pushed_self :
      (x : A)
      → get_elem? (pushed x).buf ((r.head + length xs) % r.cap)
        ≡ some (record { seq = add32 r.tail 1; value = x })
  get_elem?-pushed_self x = rw (tail_slot h) (
      get_elem?-set_self r.buf ((r.head + length xs) % r.cap) _
        (rw slots (mod-lt _ (IsPow2-pos pow2))))

  get_elem?-pushed-ne :
      (x : A) (j : ℕ)
      → (r.head + length xs) % r.cap ≢ (r.head + j) % r.cap
      → get_elem? (pushed x).buf ((r.head + j) % r.cap) ≡ get_elem? r.buf ((r.head + j) % r.cap)
  get_elem?-pushed-ne x j ne = rw (tail_slot h) (get_elem?-set_ne r.buf _ ne)

  -- It holds `x` behind the others.
  pub pushed-Holds : (x : A) → length xs < r.cap → Holds (pushed x) (xs ++ x ∷ [])
  pushed-Holds x room = record {
    pow2 = pow2;
    small = small;
    two = two;
    masked = masked;
    slots = rw length-set slots;
    head_word = head_word;
    counted = omega (arith, length-append xs (x ∷ []));
    fits = omega (arith, length-append xs (x ∷ []));
    filled = λ i y e lt. elim (dec_lt i (length xs)) [
      | yes old ↦
          rw (get_elem?-pushed-ne x i (slot-ne h i (length xs) old (omega arith)))
            (filled i y (sym (get_elem?-append xs (x ∷ []) i old) ∙ e) old)
      | no new ↦
          let last : i ≡ length xs = omega (arith, length-append xs (x ∷ [])) in
          let at = get_elem?-append_self xs x i last in
          let same : x ≡ y = cc in
          let number : add32 r.tail 1 ≡ (r.head + i + 1) % u32_mod = omega arith in
          rw (← number, ← same, last) (get_elem?-pushed_self x)
    ];
    free = λ i le lt.
        let (a, e) = free i (omega (arith, length-append xs (x ∷ []))) lt in
        let after : length xs < i = omega (arith, length-append xs (x ∷ [])) in
        (
          a,
          rw (get_elem?-pushed-ne x i (λ e'. slot-ne h (length xs) i after (omega arith) (sym e')))
              e,
        );
  }
