-- ===== src/Mpmc/Init.antt =====
-- What the two constructors of src/ring_mpmc.c leave.
use native.Mathlib.Nat.{zero-add, mod-eq_of_lt}
use ggmk.Base.{
  Option, none, ◌==◌, ℕ, zero, suc, ◌+◌, ◌-◌, ◌*◌, ◌%◌, ◌≤◌, ◌<◌, ◌≡◌, ◌≢◌, refl, ap, ◌∙◌, some,
  List, [], ◌∷◌, true, false, arith, length, length-replicate, get_elem?, u32_mod, replicate, add32,
  le→ltb,
}
use ggmk.Bits.{IsPow2}
use ggmk.Bits.Wrap.{bit_and-align8}
use ggmk.Platform.{is_power_of_two}
use ggmk.Platform.Pow2.{is_power_of_two_iff}
use ggmk.Mpmc.{Ring, Cell, cell_stride, init_seqs, init, init_buf}
use ggmk.Mpmc.Holds.{Holds}

-- A cell has room for its sequence number and its element, wastes less than 8 bytes, and is a
-- multiple of 8, unless the sum passes 32 bits.
pub cell_stride_lem :
    (elem_size : ℕ)
    → elem_size + 11 < u32_mod
    → (4 + elem_size ≤ cell_stride elem_size)
      × (cell_stride elem_size < 4 + elem_size + 8)
      × (cell_stride elem_size % 8 ≡ 0)
unfolding cell_stride
cell_stride_lem elem_size h =
    omega (arith, bit_and-align8 (add32 ((4 + elem_size) % u32_mod) 7) (omega arith))

module _ {ℓ} {A : Type ℓ} where
  length-init_seqs : (i : ℕ) (cs : List (Cell A)) → length (init_seqs i cs) ≡ length cs
  unfolding init_seqs
  length-init_seqs i [] = refl
  length-init_seqs i (c ∷ cs) = ap suc (length-init_seqs (i + 1) cs)

  get_elem?-init_seqs :
      (i j : ℕ) (cs : List (Cell A))
      → j < length cs
      → (x : A) × (get_elem? (init_seqs i cs) j ≡ some (record { seq = i + j; value = x }))
  unfolding init_seqs
  get_elem?-init_seqs i j [] h = elim h [ ]
  get_elem?-init_seqs i zero (c ∷ cs) h = (c.value, let e : i + 0 ≡ i = omega arith in rw e)
  get_elem?-init_seqs i (suc j) (c ∷ cs) h =
      let (x, e) = get_elem?-init_seqs (i + 1) j cs (omega arith) in
      let n : i + 1 + j ≡ i + suc j = omega arith in (x, rw n at e)

  -- the ring that both constructors leave over the cells `cs`
  abbrev pub fresh : ℕ → ℕ → List (Cell A) → Ring A
  fresh cap elem_size cs = record {
    head = 0;
    tail = 0;
    cap = cap;
    mask = cap - 1;
    elem_size = elem_size;
    cell_size = cell_stride elem_size;
    buf = init_seqs 0 cs;
  }

  fresh-Holds :
      (cap elem_size : ℕ) (cs : List (Cell A))
      → IsPow2 cap
      → cap < u32_mod
      → 1 < cap
      → length cs ≡ cap
      → Holds (fresh cap elem_size cs) []
  fresh-Holds cap elem_size cs p small two size = record {
    pow2 = p;
    small = small;
    two = two;
    masked = refl;
    slots = length-init_seqs 0 cs ∙ size;
    head_word = omega arith;
    counted = omega arith;
    fits = omega arith;
    filled = λ i x e lt. absurd (omega arith);
    free = λ i le lt.
        let (x, e) = get_elem?-init_seqs 0 i cs (omega arith) in
        let slot : (0 + i) % cap ≡ i = rw (zero-add, mod-eq_of_lt lt) in
        let number : (0 + i) % u32_mod ≡ 0 + i = omega arith in (x, rw (slot, number) e);
  }

  -- Over a buffer that is large enough `gmk_ring_mpmc_init_buf` leaves an empty ring, for every
  -- capacity that is a power of two greater than 1 and elements of a size that is not 0.
  pub init_buf_valid :
      (cap elem_size buf_size : ℕ) (blank : A)
      → IsPow2 cap
      → cap < u32_mod
      → 1 < cap
      → elem_size ≢ 0
      → cap * cell_stride elem_size ≤ buf_size
      → (r : Ring A) × (init_buf cap elem_size false buf_size blank ≡ some r)
        × Holds r []
        × (r.cap ≡ cap)
  unfolding init_buf
  init_buf_valid cap elem_size buf_size blank p small two e room =
      let cells = replicate cap (record { seq = 0; value = blank }) in
      let pow : is_power_of_two cap ≡ true = (is_power_of_two_iff cap).1 p in
      let fits = le→ltb buf_size (cap * cell_stride elem_size) room in
      (
        fresh cap elem_size cells,
        ground arith,
        fresh-Holds cap elem_size cells p small two (length-replicate cap _),
        refl,
      )

  -- `gmk_ring_mpmc_init` on pages of `cap` cells does the same.
  pub init_valid :
      (cap elem_size : ℕ) (page_alloc : ℕ → List (Cell A))
      → IsPow2 cap
      → cap < u32_mod
      → 1 < cap
      → elem_size ≢ 0
      → length (page_alloc (cap * cell_stride elem_size)) ≡ cap
      → (r : Ring A) × (init cap elem_size page_alloc ≡ some r) × Holds r [] × (r.cap ≡ cap)
  unfolding init
  init_valid cap elem_size page_alloc p small two e size =
      let pow : is_power_of_two cap ≡ true = (is_power_of_two_iff cap).1 p in
      let good : (elem_size == 0) ≡ false = ground arith in
      rw (pow, good) (on_pages (page_alloc (cap * cell_stride elem_size)) size)
    where
      on_pages :
          (cells : List (Cell A))
          → length cells ≡ cap
          → (r : Ring A) × ((elim cells as (λ _. Option (Ring A)) [
            | [] ↦ none
            | c ∷ cs ↦ some (fresh cap elem_size (c ∷ cs))
          ])
              ≡ some r)
            × Holds r []
            × (r.cap ≡ cap)
      on_pages [] size' = absurd (omega arith)
      on_pages (c ∷ cs) size' = (
        fresh cap elem_size (c ∷ cs),
        refl,
        fresh-Holds cap elem_size (c ∷ cs) p small two size',
        refl,
      )
