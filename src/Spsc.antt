-- ===== src/Spsc.antt =====
-- src/ring_spsc.c: the single-producer, single-consumer ring, one function for each of its own.
-- `head` and `tail` run freely modulo 2 ^ 32 and are masked on access. A slot holds one element of
-- `elem_size` bytes, which is only copied, so an element is any value. `buf` lists the slots, and
-- [] is the NULL pointer. A function that updates `*r` returns the new ring.
pub mod Holds
pub mod Slots
pub mod Init
pub mod Refine
pub mod Threads
mod Tests
use ggmk.Base.{
  ℕ, ◌+◌, ◌-◌, ◌*◌, Bool, ◌||◌, not, Option, none, some, List, [], ◌∷◌, bit_and, add32, sub32, ltb,
  leb, ◌==◌, if◌then◌else◌, get_elem?, set,
}
use ggmk.Platform.{is_power_of_two}
use ggmk.Rc.{Rc, ok, minus_one}

module _ {ℓ} where
  -- `gmk_ring_spsc_t`
  pub record Ring (A : Type ℓ) : Type ℓ where
    pub head : ℕ
    pub tail : ℕ
    pub cap : ℕ
    pub mask : ℕ
    pub elem_size : ℕ
    pub buf : List A

module _ {ℓ} {A : Type ℓ} where
  abbrev pub is_null : List A → Bool
  is_null [] = Bool.true
  is_null (x ∷ xs) = Bool.false

  -- `gmk_ring_spsc_init_buf`: the ring, or `none` for -1, over the buffer that is passed in.
  pub init_buf : ℕ → ℕ → List A → Option (Ring A)
  init_buf cap elem_size buf =
      if not (is_power_of_two cap) || elem_size == 0 || is_null buf
      then none
      else some (record {
        head = 0;
        tail = 0;
        cap = cap;
        mask = cap - 1;
        elem_size = elem_size;
        buf = buf;
      })

  -- `gmk_ring_spsc_init`. The third argument is what `gmk_hal_page_alloc` returns for a number of
  -- bytes.
  unfoldable pub init : ℕ → ℕ → (ℕ → List A) → Option (Ring A)
  init cap elem_size page_alloc =
      if not (is_power_of_two cap) || elem_size == 0
      then none
      else let buf = page_alloc (cap * elem_size) in
        if is_null buf
        then none
        else some (record {
          head = 0;
          tail = 0;
          cap = cap;
          mask = cap - 1;
          elem_size = elem_size;
          buf = buf;
        })

  -- `gmk_ring_spsc_destroy`: the ring, and the number of bytes handed to `gmk_hal_page_free`, if it
  -- is called.
  unfoldable pub destroy : Ring A → Ring A × Option ℕ
  destroy r =
      if is_null r.buf then (r, none) else (record r { buf = [] }, some (r.cap * r.elem_size))

  -- `gmk_ring_spsc_push`. A write past the buffer changes nothing; `Holds` rules it out.
  unfoldable pub push : Ring A → A → Rc × Ring A
  push r elem =
      if leb r.cap (sub32 r.tail r.head)
      then (minus_one, r)
      else let idx = bit_and r.tail r.mask in
        (ok, record r { buf = set r.buf idx elem; tail = add32 r.tail 1 })

  -- `gmk_ring_spsc_pop`. The option is what is copied to `*elem`.
  unfoldable pub pop : Ring A → Rc × Option A × Ring A
  pop r =
      if r.head == r.tail
      then (minus_one, none, r)
      else let idx = bit_and r.head r.mask in
        (ok, get_elem? r.buf idx, record r { head = add32 r.head 1 })

  -- `gmk_ring_spsc_count`, `gmk_ring_spsc_full`, `gmk_ring_spsc_empty`
  unfoldable pub count : Ring A → ℕ
  count r = sub32 r.tail r.head

  pub full : Ring A → Bool
  unfolding count
  full r = leb r.cap (count r)

  pub empty : Ring A → Bool
  unfolding count
  empty r = count r == 0
