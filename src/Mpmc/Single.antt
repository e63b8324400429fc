-- ===== src/Mpmc/Single.antt =====
-- A ring of src/ring_mpmc.c with one cell, which both constructors accept, is no queue.
use ggmk.Base.{
  ℕ, ◌+◌, ◌%◌, ◌<◌, ◌≡◌, refl, Bool, false, List, [], ◌∷◌, none, some, arith, add32, u32_mod,
}
use ggmk.Bits.{bit_and-zero}
use ggmk.Rc.{ok}
use ggmk.Mpmc.{Ring, push_loop, push, pop_loop, pop}

module _ {ℓ} {A : Type ℓ} where
  -- an empty ring of one cell, at the counter `t`
  abbrev pub single : ℕ → ℕ → A → Ring A
  single elem_size t a = record {
    head = t;
    tail = t;
    cap = 1;
    mask = 0;
    elem_size = elem_size;
    cell_size = 8;
    buf = record { seq = t; value = a } ∷ [];
  }

  -- the same ring after `n` pushes, the last of them of `a`
  abbrev pub refilled : ℕ → ℕ → ℕ → A → Ring A
  refilled elem_size t n a = record {
    head = t;
    tail = (t + n) % u32_mod;
    cap = 1;
    mask = 0;
    elem_size = elem_size;
    cell_size = 8;
    buf = record { seq = (t + n) % u32_mod; value = a } ∷ [];
  }

  module _ (elem_size t : ℕ) (word : t < u32_mod) where
    -- Each push claims the one cell again, also while it holds an element.
    push-refilled :
        (n : ℕ) (a x : A)
        → push (false ∷ []) (refilled elem_size t n a) x ≡ some (ok, refilled elem_size t (n + 1) x)
    unfolding push push_loop
    push-refilled n a x =
        let number : add32 ((t + n) % u32_mod) 1 ≡ (t + (n + 1)) % u32_mod = omega arith in
        ground (arith, bit_and-zero ((t + n) % u32_mod))

    -- After two pushes the number of the cell is one too high for a pop: it tries again for ever.
    pop-refilled : (a : A) (weak : List Bool) → pop weak (refilled elem_size t 2 a) ≡ none
    unfolding pop pop_loop
    pop-refilled a [] = refl
    pop-refilled a (w ∷ weak) =
        let again : pop_loop weak (refilled elem_size t 2 a) t ≡ none = pop-refilled a weak in
        ground (arith, bit_and-zero t)

    -- On an empty ring of one cell two pushes in a row both return 0, the second over the first, and
    -- no pop after them returns, however many rounds it makes.
    pub single_loses :
        (a x y : A) (weak : List Bool)
        → (r s : Ring A) × (push (false ∷ []) (single elem_size t a) x ≡ some (ok, r))
          × (push (false ∷ []) r y ≡ some (ok, s))
          × (pop weak s ≡ none)
    single_loses a x y weak = (
      refilled elem_size t 1 x,
      refilled elem_size t 2 y,
      start,
      push-refilled 1 x y,
      pop-refilled y weak,
    )
      where
        same : refilled elem_size t 0 a ≡ single elem_size t a
        same = let e : (t + 0) % u32_mod ≡ t = omega arith in rw e

        start : push (false ∷ []) (single elem_size t a) x ≡ some (ok, refilled elem_size t 1 x)
        start = rw same at (push-refilled 0 a x)
