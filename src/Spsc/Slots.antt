-- ===== src/Spsc/Slots.antt =====
-- The two halves of a push and of a pop on a ring that holds `xs`: the access to the slot, and the
-- step of the counter.
use native.Mathlib.Nat.{mod-lt, add-zero}
use ggmk.Base.{
  ℕ, suc, ◌+◌, ◌%◌, ◌<◌, ◌≡◌, ◌≢◌, refl, sym, ap, ◌∙◌, List, [], ◌∷◌, ◌++◌, some, arith, length,
  length-append, length-set, get_elem?, set, get_elem?-set_self, get_elem?-set_ne, get_elem?-append,
  get_elem?-append_self, add32, mod-ne, dec_lt, bit_and,
}
use ggmk.Bits.Wrap.{wrap-mod, wrap-add-mod, IsPow2-pos, bit_and-IsPow2}
use ggmk.Spsc.{Ring}
use ggmk.Spsc.Holds.{Holds}

module _ {ℓ} {A : Type ℓ} {r : Ring A} {xs : List A} (h : Holds r xs) where
  open h use {pow2, small, masked, slots, head_word, counted, fits, stored}

  -- the masked counters are slots of the buffer
  pub tail_slot : bit_and r.tail r.mask ≡ (r.head + length xs) % r.cap
  tail_slot = rw (masked, bit_and-IsPow2 pow2, counted, wrap-mod pow2 small)

  pub head_slot : bit_and r.head r.mask ≡ r.head % r.cap
  head_slot = rw (masked, bit_and-IsPow2 pow2)

  -- The slot at `head` holds the oldest element.
  pub first_slot : 0 < length xs → get_elem? r.buf (bit_and r.head r.mask) ≡ get_elem? xs 0
  first_slot pos = rw (head_slot, ← add-zero r.head) (stored 0 pos)

  -- The slot that the producer writes is none of those that the consumer may read.
  pub slot-ne :
      (i : ℕ)
      → i < length xs
      → length xs < r.cap
      → (r.head + length xs) % r.cap ≢ (r.head + i) % r.cap
  slot-ne i lt room e =
      mod-ne (r.head + i) (r.head + length xs) r.cap (omega arith) (omega arith) (sym e)

  -- The masked counters name different slots while the ring is neither empty nor full.
  pub counters-ne :
      0 < length xs → length xs < r.cap → bit_and r.tail r.mask ≢ bit_and r.head r.mask
  counters-ne pos room e =
      slot-ne 0 pos room
        (sym tail_slot ∙ e ∙ head_slot ∙ ap (λ (t : ℕ). t % r.cap) (sym (add-zero r.head)))

  module _ (x : A) (room : length xs < r.cap) where
    -- Writing the slot behind the last element changes no element.
    pub store-Holds : Holds (record r { buf = set r.buf (bit_and r.tail r.mask) x }) xs
    store-Holds = record {
      pow2 = pow2;
      small = small;
      masked = masked;
      slots = rw length-set slots;
      head_word = head_word;
      counted = counted;
      fits = fits;
      stored = λ i lt. rw (tail_slot, get_elem?-set_ne r.buf x (slot-ne i lt room), stored i lt);
    }

    pub store-slot :
        get_elem? (set r.buf (bit_and r.tail r.mask) x) ((r.head + length xs) % r.cap) ≡ some x
    store-slot = rw tail_slot (
        get_elem?-set_self r.buf ((r.head + length xs) % r.cap) x
          (rw slots (mod-lt _ (IsPow2-pos pow2))))

  -- Once the slot is written, the step of `tail` appends the element.
  pub publish-Holds :
      {x : A}
      → length xs < r.cap
      → get_elem? r.buf ((r.head + length xs) % r.cap) ≡ some x
      → Holds (record r { tail = add32 r.tail 1 }) (xs ++ x ∷ [])
  publish-Holds {x} room at = record {
    pow2 = pow2;
    small = small;
    masked = masked;
    slots = slots;
    head_word = head_word;
    counted = omega (arith, length-append xs (x ∷ []));
    fits = omega (arith, length-append xs (x ∷ []));
    stored = λ i lt. elim (dec_lt i (length xs)) [
      | yes old ↦ rw (stored i old, get_elem?-append xs (x ∷ []) i old)
      | no new ↦
          let e : i ≡ length xs = omega (arith, length-append xs (x ∷ [])) in
          rw (e, at, get_elem?-append_self xs x (length xs) refl)
    ];
  }

module _ {ℓ} {A : Type ℓ} {r : Ring A} {x : A} {xs : List A} (h : Holds r (x ∷ xs)) where
  open h use {pow2, small, masked, slots, head_word, counted, fits, stored}

  -- The step of `head` drops the oldest element.
  pub release-Holds : Holds (record r { head = add32 r.head 1 }) xs
  release-Holds = record {
    pow2 = pow2;
    small = small;
    masked = masked;
    slots = slots;
    head_word = omega arith;
    counted = omega arith;
    fits = omega arith;
    stored = λ i lt.
        let shift : r.head + 1 + i ≡ r.head + suc i = omega arith in
        rw (wrap-add-mod pow2 small (r.head + 1) i, shift, stored (suc i) (omega arith));
  }
