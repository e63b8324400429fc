-- ===== src/Spsc/Init.antt =====
-- What the two constructors of src/ring_spsc.c accept, and what they leave.
use ggmk.Base.{
  ℕ, ◌-◌, ◌*◌, ◌<◌, ◌≡◌, ◌≢◌, ◌⊎◌, inl, inr, refl, none, some, List, [], ◌∷◌, true, false, arith,
  length, u32_mod,
}
use ggmk.Bits.{IsPow2}
use ggmk.Bits.Wrap.{IsPow2-pos}
use ggmk.Platform.{is_power_of_two}
use ggmk.Platform.Pow2.{is_power_of_two_iff, is_power_of_two-ne}
use ggmk.Spsc.{Ring, init, init_buf, is_null}
use ggmk.Spsc.Holds.{Holds}

module _ {ℓ} {A : Type ℓ} where
  not_null : (buf : List A) → 0 < length buf → is_null buf ≡ false
  not_null [] h = elim h [ ]
  not_null (x ∷ xs) h = refl

  -- Over a buffer of `cap` slots `gmk_ring_spsc_init_buf` accepts a capacity that is a power of two
  -- and a size of elements that is not 0, and leaves an empty ring of that capacity.
  pub init_buf-Holds :
      (cap elem_size : ℕ) (buf : List A)
      → cap < u32_mod
      → length buf ≡ cap
      → IsPow2 cap
      → elem_size ≢ 0
      → (r : Ring A) × (init_buf cap elem_size buf ≡ some r) × Holds r [] × (r.cap ≡ cap)
  unfolding init_buf
  init_buf-Holds cap elem_size buf small size p e =
      let pow : is_power_of_two cap ≡ true = (is_power_of_two_iff cap).1 p in
      let live : is_null buf ≡ false = not_null buf (rw size (IsPow2-pos p)) in
      let fresh : Ring A = record {
        head = 0;
        tail = 0;
        cap = cap;
        mask = cap - 1;
        elem_size = elem_size;
        buf = buf;
      } in
      let empty_ring : Holds fresh [] = record {
        pow2 = p;
        small = small;
        masked = refl;
        slots = size;
        head_word = omega arith;
        counted = omega arith;
        fits = omega arith;
        stored = λ i lt. absurd (omega arith);
      } in
      (fresh, ground arith, empty_ring, refl)

  -- `gmk_ring_spsc_init_buf` refuses a capacity that is no power of two, elements of size 0 and the
  -- NULL buffer.
  pub init_buf-refuses :
      (cap elem_size : ℕ) (buf : List A)
      → (¬ IsPow2 cap) ⊎ (elem_size ≡ 0) ⊎ (buf ≡ [])
      → init_buf cap elem_size buf ≡ none
  unfolding init_buf
  init_buf-refuses cap elem_size buf (inl bad) = rw (is_power_of_two-ne cap bad)
  init_buf-refuses cap elem_size buf (inr (inl bad)) = ground arith
  init_buf-refuses cap elem_size buf (inr (inr bad)) = rw bad (ground arith)

  -- `gmk_ring_spsc_init` is `gmk_ring_spsc_init_buf` on what the page allocator returns for
  -- `cap * elem_size` bytes, NULL included.
  pub init-eq-init_buf :
      (cap elem_size : ℕ) (page_alloc : ℕ → List A)
      → init cap elem_size page_alloc ≡ init_buf cap elem_size (page_alloc (cap * elem_size))
  unfolding init init_buf
  init-eq-init_buf cap elem_size page_alloc = ground arith
