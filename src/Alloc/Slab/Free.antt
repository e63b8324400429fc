-- ===== src/Alloc/Slab/Free.antt =====
-- The free list of src/alloc_slab.c: an object is free or in use, and never given out twice.
use mathlib.Core.Path.{subst}
use native.Mathlib.Nat.{mul-add-div_right, div-eq_of_lt}
use ggmk.Base.{
  ℕ, ◌+◌, ◌-◌, ◌*◌, ◌/◌, ◌%◌, ◌^◌, ◌<◌, ◌≡◌, ◌≢◌, ◌∙◌, refl, sym, ap, ◌⊎◌, inl, inr, List, [], ◌∷◌,
  Option, none, some, arith, u32_mod, add32, sub32, ltb, length, get_elem?, set, get_elem?-set_self,
  get_elem?-set_ne, length-set, lt→ltb, le→ltb, lt→leb, true,
}
use ggmk.Alloc.Slab.{Slab, alloc, alloc_from, free}

-- `i` is one of the indices.
abbrev pub In : ℕ → List ℕ → Type 0
In i [] = ⊥
In i (j ∷ js) = (i ≡ j) ⊎ In i js

-- The list links the indices `is`, from the head on, each once and within the capacity.
abbrev pub Linked : List (Option ℕ) → Option ℕ → List ℕ → Type 0
Linked links head [] = head ≡ none
Linked links head (i ∷ is) =
    (head ≡ some i)
    × (i < length links)
    × (In i is → ⊥)
    × ((next : Option ℕ) × (get_elem? links i ≡ some next) × Linked links next is)

-- The slab is well formed, and its free objects are those of `is`, the next one first.
pub record HasFree (s : Slab) (is : List ℕ) : Type 0 where
  pub linked : Linked s.free_list s.free_head is
  pub sized : length s.free_list ≡ s.capacity
  pub small : s.capacity < 2 ^ 31
  pub wide : 0 < s.obj_size
  pub counted : s.alloc_count + length is ≡ s.capacity

-- A write to an index that is not on the list leaves the list.
Linked-set :
    (links : List (Option ℕ)) (head : Option ℕ) (is : List ℕ) (i : ℕ) (v : Option ℕ)
    → (In i is → ⊥)
    → Linked links head is
    → Linked (set links i v) head is
Linked-set links head [] i v out h = h
Linked-set links head (j ∷ is) i v out (e, lt, once, (next, got, rest)) =
    let ne : i ≢ j = λ e'. out (inl e') in
    (
      e,
      omega (arith, length-set links i v),
      once,
      (
        next,
        get_elem?-set_ne links v ne ∙ got,
        Linked-set links next is i v (λ m. out (inr m)) rest,
      ),
    )

-- The objects are where they were.
abbrev pub SameObjects : Slab → Slab → Type 0
SameObjects s s' = (s'.base ≡ s.base) × (s'.obj_size ≡ s.obj_size) × (s'.capacity ≡ s.capacity)

-- what a call gives, of the free objects that there are
abbrev pub Given : Slab → List ℕ → Option (Option ℕ × Slab) → Type 0
Given s [] r = r ≡ some (none, s)
Given s (i ∷ is) r =
    (s' : Slab) × (r ≡ some (some (s.base + i * s.obj_size), s'))
    × HasFree s' is
    × (In i is → ⊥)
    × (s'.alloc_count ≡ s.alloc_count + 1)
    × SameObjects s s'

-- `gmk_slab_alloc` gives the first free object, which then is no longer free, and counts it; it gives
-- none and changes nothing when there is none.
pub slab_alloc_lem : (s : Slab) (is : List ℕ) → HasFree s is → Given s is (alloc s)
unfolding alloc alloc_from
slab_alloc_lem s [] h = ap (alloc_from s) h.linked
slab_alloc_lem s (i ∷ is) h =
    let (e, lt, once, (next, got, rest)) = h.linked in
    let count : add32 s.alloc_count 1 ≡ s.alloc_count + 1 = omega (arith, h.counted, h.small) in
    let first : Given s (i ∷ is) (alloc_from s (some i)) =
      rw (got, count)
        (
          _,
          refl,
          record {
            linked = rest;
            sized = h.sized;
            small = h.small;
            wide = h.wide;
            counted = omega (arith, h.counted);
          },
          once,
          refl,
          (refl, refl, refl),
        ) in
    subst (λ (head : Option ℕ). Given s (i ∷ is) (alloc_from s head)) (sym e) first

module _ (s : Slab) (is : List ℕ) (h : HasFree s is) (i : ℕ) (lt : i < s.capacity) where
  -- the index that the code finds for a pointer into object `i`
  free_index :
      (k : ℕ) → k < s.obj_size → (s.base + i * s.obj_size + k - s.base) / s.obj_size % u32_mod ≡ i
  free_index k in_object =
      let off : s.base + i * s.obj_size + k - s.base ≡ i * s.obj_size + k = omega arith in
      rw (off, mul-add-div_right h.wide i k, div-eq_of_lt in_object) (omega (arith, h.small))

  -- `gmk_slab_free` of a pointer into an object that is not free puts the object before the free ones.
  pub slab_free_lem :
      (In i is → ⊥)
      → 0 < s.alloc_count
      → (k : ℕ) → k < s.obj_size
      → HasFree (free s (s.base + i * s.obj_size + k)) (i ∷ is)
        × ((free s (s.base + i * s.obj_size + k)).alloc_count + 1 ≡ s.alloc_count)
        × SameObjects s (free s (s.base + i * s.obj_size + k))
  unfolding free
  slab_free_lem out busy k in_object =
      let less : sub32 s.alloc_count 1 ≡ s.alloc_count - 1 = omega (arith, h.counted, h.small) in
      let small : ltb i (2 ^ 31) ≡ true = lt→ltb i (2 ^ 31) (omega (arith, h.small)) in
      rw
        (
          le→ltb (s.base + i * s.obj_size + k) s.base (omega arith),
          free_index k in_object,
          lt→leb i s.capacity lt,
          small,
          less,
        )
        (
          record {
            linked = (
              refl,
              omega (arith, h.sized, length-set s.free_list i s.free_head),
              out,
              (
                s.free_head,
                get_elem?-set_self s.free_list i s.free_head (omega (arith, h.sized)),
                Linked-set s.free_list s.free_head is i s.free_head out h.linked,
              ),
            );
            sized = length-set s.free_list i s.free_head ∙ h.sized;
            small = h.small;
            wide = h.wide;
            counted = omega (arith, h.counted);
          },
          omega arith,
          (refl, refl, refl),
        )
