-- ===== src/Mpmc/Holds.antt =====
-- What a ring of src/ring_mpmc.c holds: the elements in the order in which they were pushed, and what
-- the sequence numbers say of the cells.
use ggmk.Base.{ℕ, ◌+◌, ◌-◌, ◌%◌, ◌≤◌, ◌<◌, ◌≡◌, List, some, u32_mod, length, get_elem?}
use ggmk.Bits.{IsPow2}
use ggmk.Mpmc.{Ring}

module _ {ℓ} {A : Type ℓ} where
  -- The ring is well formed and holds the elements `xs`, oldest first. It has two cells at least. The
  -- cell of element `i` is numbered one past its position, and a free cell is numbered by the
  -- position that it serves next.
  pub record Holds (r : Ring A) (xs : List A) : Type ℓ where
    pub pow2 : IsPow2 r.cap
    pub small : r.cap < u32_mod
    pub two : 1 < r.cap
    pub masked : r.mask ≡ r.cap - 1
    pub slots : length r.buf ≡ r.cap
    pub head_word : r.head < u32_mod
    pub counted : r.tail ≡ (r.head + length xs) % u32_mod
    pub fits : length xs ≤ r.cap
    pub filled :
        (i : ℕ) (x : A)
        → get_elem? xs i ≡ some x
        → i < length xs
        → get_elem? r.buf ((r.head + i) % r.cap)
          ≡ some (record { seq = (r.head + i + 1) % u32_mod; value = x })
    pub free :
        (i : ℕ)
        → length xs ≤ i
        → i < r.cap
        → (x : A) × (get_elem? r.buf ((r.head + i) % r.cap)
            ≡ some (record { seq = (r.head + i) % u32_mod; value = x }))
