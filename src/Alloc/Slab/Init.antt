-- ===== src/Alloc/Slab/Init.antt =====
-- `gmk_slab_init` of src/alloc_slab.c leaves all objects free, in memory that holds them and the list.
use native.Mathlib.Nat.{div-mul-le_self, le-div_iff_mul-le}
use ggmk.Base.{
  ==-zero_of_pos, ℕ, zero, suc, ◌+◌, ◌*◌, ◌/◌, ◌%◌, ◌^◌, ◌≤◌, ◌<◌, ◌≡◌, refl, ap, inl, inr, List,
  [], ◌∷◌, none, some, arith, u32_mod, if◌then◌else◌, ◌==◌, length, get_elem?, false,
}
use ggmk.Alloc.Bump.{align8}
use ggmk.Alloc.Bump.Regions.{align8_bounds}
use ggmk.Alloc.Slab.{Slab, links, init, to_int32}
use ggmk.Alloc.Slab.Free.{In, Linked, HasFree}

-- `n` indices from `i` on
abbrev pub up : ℕ → ℕ → List ℕ
up zero i = []
up (suc n) i = i ∷ up n (suc i)

length-up : (n i : ℕ) → length (up n i) ≡ n
length-up zero i = refl
length-up (suc n) i = ap suc (length-up n (suc i))

le_of_In-up : (n i j : ℕ) → In j (up n i) → i ≤ j
le_of_In-up zero i j m = elim m [ ]
le_of_In-up (suc n) i j (inl e) = omega arith
le_of_In-up (suc n) i j (inr m) = omega (arith, le_of_In-up n (suc i) j m)

length-links : (n i : ℕ) → length (links n i) ≡ n
unfolding links
length-links zero i = refl
length-links (suc n) i = ap suc (length-links n (i + 1))

get_elem?-links :
    (n i j : ℕ)
    → j < n
    → get_elem? (links n i) j ≡ some (if n == suc j then none else to_int32 (i + j + 1))
unfolding links
get_elem?-links zero i j lt = absurd (omega arith)
get_elem?-links (suc n) i zero lt = ground arith
get_elem?-links (suc n) i (suc j) lt = ground (arith, get_elem?-links n (i + 1) j)

-- The last `k` entries of the list that `gmk_slab_init` writes link the last `k` indices.
links-Linked :
    (n k i : ℕ)
    → i + k ≡ n
    → n < 2 ^ 31
    → Linked (links n 0) (if k == 0 then none else some i) (up k i)
links-Linked n zero i e small = refl
links-Linked n (suc k) i e small = (
  ground arith,
  omega (arith, length-links n 0),
  (λ m. absurd (omega (arith, le_of_In-up k (suc i) i m))),
  (_, ground (arith, get_elem?-links n 0 i), links-Linked n k (suc i) (omega arith) small),
)

module _ (mem mem_size obj_size : ℕ) (wide : 0 < obj_size) (word : obj_size + 7 < u32_mod)
    (room : align8 obj_size + 4 ≤ mem_size) (few : mem_size / (align8 obj_size + 4) < 2 ^ 31) where
  -- `gmk_slab_init` over memory for one object at least leaves a slab of as many objects as fit with
  -- their list entries, none of them in use and each free once. The objects have the size asked for, aligned.
  pub slab_init_lem :
      (s : Slab) × (init (some mem) mem_size obj_size ≡ some s)
      × HasFree s (up s.capacity 0)
      × (0 < s.capacity)
      × (s.alloc_count ≡ 0)
      × (s.base ≡ mem)
      × (s.obj_size ≡ align8 obj_size)
      × (s.capacity * s.obj_size + s.capacity * 4 ≤ mem_size)
  unfolding init
  slab_init_lem =
      let above = (align8_bounds obj_size word).0 in
      let n = mem_size / (align8 obj_size + 4) in
      let some_size : (obj_size == 0) ≡ false = ground arith in
      let whole : mem_size / (align8 obj_size + 4) % u32_mod ≡ n = omega arith in
      let pos : 0 < mem_size / (align8 obj_size + 4) =
        (le-div_iff_mul-le {x = 1} (omega arith)).1 (omega arith) in
      let more : (n == 0) ≡ false = ==-zero_of_pos n pos in
      let fit : n * (align8 obj_size + 4) ≤ mem_size =
        div-mul-le_self mem_size (align8 obj_size + 4) in
      rw (some_size, whole, more)
        (
          _,
          refl,
          record {
            linked = rw more at (links-Linked n n 0 (omega arith) few);
            sized = length-links n 0;
            small = few;
            wide = omega arith;
            counted = omega (arith, length-up n 0);
          },
          pos,
          refl,
          refl,
          refl,
          grind arith,
        )
