-- ===== src/Mpmc/Threads.antt =====
-- `gmk_ring_mpmc_push` and `gmk_ring_mpmc_pop` of src/ring_mpmc.c run by any number of threads: each load,
-- compare-and-swap, copy and store is a step, and the steps of the threads interleave in any order. The
-- accesses are taken to be sequentially consistent. A cell is found by its index.
pub mod Inv
pub mod Places
pub mod Moves
pub mod Stores
pub mod Releases
pub mod Steps
pub mod Fifo
mod Tests
use ggmk.Base.{
  ℕ, ◌+◌, ◌-◌, Bool, true, false, ◌&&◌, not, Option, none, some, List, [], ◌∷◌, ◌++◌, bit_and,
  add32, sub32, ◌==◌, if◌then◌else◌,
}
use ggmk.Mpmc.{is_negative}

-- the fields of `gmk_ring_mpmc_t` that change, with the cells
pub record Shared (A : Type 0) : Type 0 where
  pub head : ℕ
  pub tail : ℕ
  pub cap : ℕ
  pub seq : ℕ → ℕ
  pub value : ℕ → A

-- Where a thread is, with its locals: outside of a call, before a load of `tail` or `head`, before the load
-- of `seq`, before the compare-and-swap, before the copy, and before the store of `seq`.
pub data Place (A : Type 0) : Type 0 where
  idle : Place A
  push_start : (elem : A) → Place A
  push_tail : (elem : A) (tail : ℕ) → Place A
  push_seq : (elem : A) (tail seq : ℕ) → Place A
  push_copy : (elem : A) (tail : ℕ) → Place A
  push_store : (elem : A) (tail : ℕ) → Place A
  pop_start : Place A
  pop_head : (head : ℕ) → Place A
  pop_seq : (head seq : ℕ) → Place A
  pop_copy : (head : ℕ) → Place A
  pop_store : (head : ℕ) (elem : A) → Place A

-- what a thread calls
pub data Call (A : Type 0) : Type 0 where
  push : A → Call A
  pop : Call A

-- A thread that runs, with its call if it is outside of one, and whether a weak compare-and-swap fails
-- spuriously.
pub record Turn (A : Type 0) : Type 0 where
  pub thread : ℕ
  pub call : Call A
  pub spurious : Bool

abbrev pub update {ℓ} : {B : Type ℓ} → (ℕ → B) → ℕ → B → ℕ → B
update f i b j = if i == j then b else f j

module _ {A : Type 0} where
  -- the index of `cell_at`
  abbrev pub cell : Shared A → ℕ → ℕ
  cell r pos = bit_and pos (r.cap - 1)

  abbrev pub called : Call A → Place A
  called (push elem) = push_start elem
  called pop = pop_start

  -- the branches at the comparison of `gmk_ring_mpmc_push`, and of `gmk_ring_mpmc_pop`
  abbrev pub push_compare : Shared A → Bool → A → ℕ → ℕ → Shared A × Place A
  push_compare r spurious elem tail seq =
      let diff = sub32 seq tail in
      let won : Shared A × Place A = (record r { tail = add32 tail 1 }, push_copy elem tail) in
      let lost : Shared A × Place A = (r, push_tail elem r.tail) in
      if diff == 0
      then if not spurious && (r.tail == tail) then won else lost
      else if is_negative diff
      then (r, idle)
      else (r, push_start elem)

  abbrev pub pop_compare : Shared A → Bool → ℕ → ℕ → Shared A × Place A
  pop_compare r spurious head seq =
      let diff = sub32 seq (add32 head 1) in
      let won : Shared A × Place A = (record r { head = add32 head 1 }, pop_copy head) in
      let lost : Shared A × Place A = (r, pop_head r.head) in
      if diff == 0
      then if not spurious && (r.head == head) then won else lost
      else if is_negative diff
      then (r, idle)
      else (r, pop_start)

  -- one access of a thread
  unfoldable pub access : Shared A → Turn A → Place A → Shared A × Place A
  access r m idle = (r, called m.call)
  access r m (push_start elem) = (r, push_tail elem r.tail)
  access r m (push_tail elem tail) = (r, push_seq elem tail (r.seq (cell r tail)))
  access r m (push_seq elem tail seq) = push_compare r m.spurious elem tail seq
  access r m (push_copy elem tail) =
      (record r { value = update r.value (cell r tail) elem }, push_store elem tail)
  access r m (push_store elem tail) =
      (record r { seq = update r.seq (cell r tail) (add32 tail 1) }, idle)
  access r m pop_start = (r, pop_head r.head)
  access r m (pop_head head) = (r, pop_seq head (r.seq (cell r head)))
  access r m (pop_seq head seq) = pop_compare r m.spurious head seq
  access r m (pop_copy head) = (r, pop_store head (r.value (cell r head)))
  access r m (pop_store head elem) =
      (record r { seq = update r.seq (cell r head) (add32 head r.cap) }, idle)

  -- what a step adds to the elements whose push has claimed a cell, oldest first
  abbrev pub pushed : Place A → Place A → List A
  pushed (push_seq elem tail seq) (push_copy elem' tail') = elem' ∷ []
  pushed _ _ = []

  -- what it adds to the elements that pops have returned, each with the `head` that it has claimed
  abbrev pub popped : Place A → List (ℕ × A)
  popped (pop_store head elem) = (head, elem) ∷ []
  popped _ = []

pub record System (A : Type 0) : Type 0 where
  pub ring : Shared A
  pub place : ℕ → Place A
  pub pushes : List A
  pub pops : List (ℕ × A)

module _ {A : Type 0} where
  -- a ring as `gmk_ring_mpmc_init` leaves it, with what the cells hold before
  abbrev pub start : ℕ → (ℕ → A) → System A
  start cap value = record {
    ring = record { head = 0; tail = 0; cap = cap; seq = λ i. i; value = value };
    place = λ i. idle;
    pushes = [];
    pops = [];
  }

  unfoldable pub step : System A → Turn A → System A
  unfolding access
  step s m =
      let r = access s.ring m (s.place m.thread) in
      record {
        ring = r.0;
        place = update s.place m.thread r.1;
        pushes = s.pushes ++ pushed (s.place m.thread) r.1;
        pops = s.pops ++ popped (s.place m.thread);
      }

  -- the state after some turns, the first first
  unfoldable pub after : System A → List (Turn A) → System A
  unfolding step
  after s [] = s
  after s (m ∷ ms) = after (step s m) ms
