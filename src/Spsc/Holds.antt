-- ===== src/Spsc/Holds.antt =====
-- What a ring of src/ring_spsc.c holds: the elements in the order in which they were pushed.
use ggmk.Base.{ℕ, ◌+◌, ◌-◌, ◌%◌, ◌≤◌, ◌<◌, ◌≡◌, List, u32_mod, length, get_elem?}
use ggmk.Bits.{IsPow2}
use ggmk.Spsc.{Ring}

module _ {ℓ} {A : Type ℓ} where
  -- The ring is well formed and holds the elements `xs`, oldest first.
  pub record Holds (r : Ring A) (xs : List A) : Type ℓ where
    pub pow2 : IsPow2 r.cap
    pub small : r.cap < u32_mod
    pub masked : r.mask ≡ r.cap - 1
    pub slots : length r.buf ≡ r.cap
    pub head_word : r.head < u32_mod
    pub counted : r.tail ≡ (r.head + length xs) % u32_mod
    pub fits : length xs ≤ r.cap
    pub stored : (i : ℕ) → i < length xs → get_elem? r.buf ((r.head + i) % r.cap) ≡ get_elem? xs i
