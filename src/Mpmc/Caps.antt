-- ===== src/Mpmc/Caps.antt =====
-- No push to a ring of src/ring_mpmc.c changes its capacity.
use ggmk.Base.{
  ℕ, ◌≡◌, refl, Bool, not, ◌&&◌, Option, none, some, List, [], ◌∷◌, ◌==◌, get_elem?, sub32,
  Bool-cases, Option-cases, inl, inr, bit_and,
}
use ggmk.Rc.{Rc}
use ggmk.Mpmc.{Ring, push, push_loop, is_negative}

module _ {ℓ} {A : Type ℓ} where
  abbrev pub KeepsCap : ℕ → Option (Rc × Ring A) → Type 0
  KeepsCap cap none = Unit
  KeepsCap cap (some (rc, r)) = r.cap ≡ cap

  push_loop-KeepsCap :
      (weak : List Bool) (r : Ring A) (x : A) (tail : ℕ) → KeepsCap r.cap (push_loop weak r x tail)
  unfolding push_loop
  push_loop-KeepsCap [] r x tail = tt
  push_loop-KeepsCap (w ∷ weak) r x tail =
      let again = push_loop-KeepsCap weak r x r.tail in
      elim (Option-cases (get_elem? r.buf (bit_and tail r.mask))) [
        | inl out ↦ rw (KeepsCap, push_loop, out) tt
        | inr (c, e) ↦ elim (Bool-cases (sub32 c.seq tail == 0)) [
          | inl free ↦ elim (Bool-cases (not w && (r.tail == tail))) [
            | inl lands ↦ rw (KeepsCap, push_loop, e, free, lands) refl
            | inr fails ↦ rw (KeepsCap, push_loop, e, free, fails) again
          ]
          | inr taken ↦ elim (Bool-cases (is_negative (sub32 c.seq tail))) [
            | inl full ↦ rw (KeepsCap, push_loop, e, taken, full) refl
            | inr moved ↦ rw (KeepsCap, push_loop, e, taken, moved) again
          ]
        ]
      ]

  pub push-KeepsCap : (weak : List Bool) (r : Ring A) (x : A) → KeepsCap r.cap (push weak r x)
  unfolding push
  push-KeepsCap weak r x = push_loop-KeepsCap weak r x r.tail
