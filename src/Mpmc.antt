-- ===== src/Mpmc.antt =====
-- src/ring_mpmc.c: the multi-producer, multi-consumer ring (Vyukov's bounded queue), one function
-- for each of its own, run by one thread at a time. A cell is a sequence number and one element.
-- `buf` lists the cells, and [] is the NULL pointer. The two loops run over a list that says of each
-- round whether its weak compare-and-swap fails spuriously; `none` means that the loop has not left
-- by the end of the list. A signed difference is kept as its 32-bit pattern.
pub mod Holds
pub mod Slots
pub mod Push
pub mod Pop
pub mod Init
pub mod Refine
pub mod Single
pub mod Caps
pub mod Threads
mod Tests
use ggmk.Base.{
  ℕ, ◌+◌, ◌-◌, ◌*◌, ◌^◌, Bool, true, false, ◌||◌, ◌&&◌, not, Option, none, some, List, [], ◌∷◌,
  bit_and, add32, sub32, u32_mod, ◌%◌, ltb, leb, ◌==◌, if◌then◌else◌, get_elem?, set, replicate,
}
use ggmk.Platform.{is_power_of_two}
use ggmk.Rc.{Rc, ok, minus_one}

-- `cell_stride`: the sequence number and the element, rounded up to a multiple of 8.
pub cell_stride : ℕ → ℕ
cell_stride elem_size = let raw = (4 + elem_size) % u32_mod in bit_and (add32 raw 7) 0xffff_fff8

-- `diff < 0`, of the bits of a signed difference
abbrev pub is_negative : ℕ → Bool
is_negative diff = leb (2 ^ 31) diff

module _ {ℓ} where
  -- `gmk_mpmc_cell_t`
  pub record Cell (A : Type ℓ) : Type ℓ where
    pub seq : ℕ
    pub value : A

  -- `gmk_ring_mpmc_t`
  pub record Ring (A : Type ℓ) : Type ℓ where
    pub head : ℕ
    pub tail : ℕ
    pub cap : ℕ
    pub mask : ℕ
    pub elem_size : ℕ
    pub cell_size : ℕ
    pub buf : List (Cell A)

module _ {ℓ} {A : Type ℓ} where
  -- the loop that numbers the cells from `i` on
  pub init_seqs : ℕ → List (Cell A) → List (Cell A)
  init_seqs i [] = []
  init_seqs i (c ∷ cs) = record c { seq = i } ∷ init_seqs (i + 1) cs

  -- `gmk_ring_mpmc_init`: the ring, or `none` for -1. The third argument is what
  -- `gmk_hal_page_alloc` returns for a number of bytes, as cells.
  unfoldable pub init : ℕ → ℕ → (ℕ → List (Cell A)) → Option (Ring A)
  unfolding init_seqs cell_stride
  init cap elem_size page_alloc =
      if not (is_power_of_two cap) || elem_size == 0
      then none
      else elim (page_alloc (cap * cell_stride elem_size)) [
        | [] ↦ none
        | c ∷ cs ↦ some (record {
          head = 0;
          tail = 0;
          cap = cap;
          mask = cap - 1;
          elem_size = elem_size;
          cell_size = cell_stride elem_size;
          buf = init_seqs 0 (c ∷ cs);
        })
      ]

  -- `gmk_ring_mpmc_init_buf` over `buf_size` bytes; `null` says that the buffer is the NULL pointer,
  -- and `blank` is the element whose bytes `memset` has cleared.
  pub init_buf : ℕ → ℕ → Bool → ℕ → A → Option (Ring A)
  unfolding init_seqs
  init_buf cap elem_size null buf_size blank =
      if not (is_power_of_two cap)
        || elem_size == 0
        || null
        || ltb buf_size (cap * cell_stride elem_size)
      then none
      else some (record {
        head = 0;
        tail = 0;
        cap = cap;
        mask = cap - 1;
        elem_size = elem_size;
        cell_size = cell_stride elem_size;
        buf = init_seqs 0 (replicate cap (record { seq = 0; value = blank }));
      })

  -- `gmk_ring_mpmc_destroy`: the ring, and the number of bytes handed to `gmk_hal_page_free`, if it
  -- is called.
  pub destroy : Ring A → Ring A × Option ℕ
  destroy r = elim r.buf [
    | [] ↦ (r, none)
    | c ∷ cs ↦ (record r { buf = [] }, some (r.cap * r.cell_size))
  ]

  -- The loop of `gmk_ring_mpmc_push`, with the local `tail`. A failed compare-and-swap and the last
  -- branch both load `tail` anew.
  pub push_loop : List Bool → Ring A → A → ℕ → Option (Rc × Ring A)
  push_loop [] r elem tail = none
  push_loop (spurious ∷ rest) r elem tail =
      let again = push_loop rest r elem r.tail in
      let idx = bit_and tail r.mask in
      elim (get_elem? r.buf idx) [
        | none ↦ none
        | some c ↦
            let diff = sub32 c.seq tail in
            if diff == 0
            then if not spurious && (r.tail == tail)
              then some (
                ok,
                record r {
                  tail = add32 tail 1;
                  buf = set r.buf idx (record { seq = add32 tail 1; value = elem });
                },
              )
              else again
            else if is_negative diff
            then some (minus_one, r)
            else again
      ]

  -- `gmk_ring_mpmc_push`
  unfoldable pub push : List Bool → Ring A → A → Option (Rc × Ring A)
  unfolding push_loop
  push weak r elem = push_loop weak r elem r.tail

  -- The loop of `gmk_ring_mpmc_pop`, with the local `head`; the inner option is what is copied to
  -- `*elem`.
  pub pop_loop : List Bool → Ring A → ℕ → Option (Rc × Option A × Ring A)
  pop_loop [] r head = none
  pop_loop (spurious ∷ rest) r head =
      let again = pop_loop rest r r.head in
      let idx = bit_and head r.mask in
      elim (get_elem? r.buf idx) [
        | none ↦ none
        | some c ↦
            let diff = sub32 c.seq (add32 head 1) in
            if diff == 0
            then if not spurious && (r.head == head)
              then some (
                ok,
                some c.value,
                record r {
                  head = add32 head 1;
                  buf = set r.buf idx (record c { seq = add32 head r.cap });
                },
              )
              else again
            else if is_negative diff
            then some (minus_one, none, r)
            else again
      ]

  -- `gmk_ring_mpmc_pop`
  unfoldable pub pop : List Bool → Ring A → Option (Rc × Option A × Ring A)
  unfolding pop_loop
  pop weak r = pop_loop weak r r.head

  -- `gmk_ring_mpmc_count`
  unfoldable pub count : Ring A → ℕ
  count r = sub32 r.tail r.head
