-- ===== src/Mpmc/Threads/Inv.antt =====
-- What holds of the threads on a ring of src/ring_mpmc.c while less than 2 ^ 31 accesses have been made.
use ggmk.Base.{
  ℕ, suc, ◌+◌, ◌%◌, ◌≤◌, ◌<◌, ◌≡◌, ◌≢◌, ◌⊎◌, Bool, true, false, Option, none, some, List, [], ◌∷◌,
  length, get_elem?,
}
use ggmk.Mpmc.Threads.{
  Shared, Place, push_tail, push_seq, push_copy, push_store, pop_head, pop_seq, pop_copy, pop_store,
  System,
}

-- A cell that is at a position, and is empty or full.
abbrev pub IsAt : ℕ → (ℕ → ℕ) → (ℕ → Bool) → ℕ → Bool → Type 0
IsAt cap at full pos is_full = (at (pos % cap) ≡ pos) × (full (pos % cap) ≡ is_full)

module _ {A : Type 0} where
  -- the position of the cell that a thread has for itself
  abbrev pub ticket : Place A → Option ℕ
  ticket (push_copy elem tail) = some tail
  ticket (push_store elem tail) = some tail
  ticket (pop_copy head) = some head
  ticket (pop_store head elem) = some head
  ticket _ = none

  -- What the locals of a thread say about the ring.
  abbrev pub Fits : Shared A → List A → (ℕ → ℕ) → (ℕ → Bool) → Place A → Type 0
  Fits r pushes at full (push_tail elem tail) = tail ≤ r.tail
  Fits r pushes at full (push_seq elem tail seq) =
      (tail ≤ r.tail)
      × (seq ≤ r.tail + r.cap)
      × (seq ≡ tail → tail ≡ r.tail → IsAt r.cap at full tail false)
  Fits r pushes at full (push_copy elem tail) =
      (tail < r.tail) × IsAt r.cap at full tail false × (get_elem? pushes tail ≡ some elem)
  Fits r pushes at full (push_store elem tail) =
      (tail < r.tail)
      × IsAt r.cap at full tail false
      × (get_elem? pushes tail ≡ some elem)
      × (r.value (tail % r.cap) ≡ elem)
  Fits r pushes at full (pop_head head) = head ≤ r.head
  Fits r pushes at full (pop_seq head seq) =
      (head ≤ r.head)
      × (seq ≤ r.tail + r.cap)
      × (seq ≡ suc head → head ≡ r.head → IsAt r.cap at full head true)
  Fits r pushes at full (pop_copy head) = (head < r.head) × IsAt r.cap at full head true
  Fits r pushes at full (pop_store head elem) =
      (head < r.head) × IsAt r.cap at full head true × (get_elem? pushes head ≡ some elem)
  Fits r pushes at full _ = Unit {0}

  -- The elements that were popped, each pushed at its position, which the cell has left behind.
  abbrev pub AllLeft : ℕ → List A → (ℕ → ℕ) → List (ℕ × A) → Type 0
  AllLeft cap pushes at [] = Unit {0}
  AllLeft cap pushes at ((pos, elem) ∷ pops) =
      (get_elem? pushes pos ≡ some elem) × (pos < at (pos % cap)) × AllLeft cap pushes at pops

  -- no position twice
  abbrev pub IsOnce : ℕ → List (ℕ × A) → Type 0
  IsOnce pos [] = Unit {0}
  IsOnce pos ((other, elem) ∷ pops) = (pos ≢ other) × IsOnce pos pops

  abbrev pub AllOnce : List (ℕ × A) → Type 0
  AllOnce [] = Unit {0}
  AllOnce ((pos, elem) ∷ pops) = IsOnce pos pops × AllOnce pops

  -- `at` is the position of each cell and `full` says whether it is published there; `n` is the number of accesses.
  pub record Inv (cap n : ℕ) (s : System A) (at : ℕ → ℕ) (full : ℕ → Bool) : Type 0 where
    pub capacity : s.ring.cap ≡ cap
    pub counted : s.ring.tail ≡ length s.pushes
    pub early : s.ring.tail ≤ n
    pub ordered : s.ring.head ≤ s.ring.tail
    pub placed : (i : ℕ) → i < cap → (at i % cap ≡ i) × (at i < s.ring.tail + cap)
    pub empty : (i : ℕ) → i < cap → full i ≡ false → s.ring.seq i ≡ at i
    pub filled :
        (i : ℕ)
        → i < cap
        → full i ≡ true
        → (s.ring.seq i ≡ suc (at i))
          × (at i < s.ring.tail)
          × (get_elem? s.pushes (at i) ≡ some (s.ring.value i))
    pub claimed : (pos : ℕ) → pos < s.ring.tail → pos ≤ at (pos % cap)
    pub taken : (pos : ℕ) → pos < s.ring.head → (pos < at (pos % cap)) ⊎ IsAt cap at full pos true
    pub fits : (i : ℕ) → Fits s.ring s.pushes at full (s.place i)
    pub unique :
        (i j pos : ℕ) → ticket (s.place i) ≡ some pos → ticket (s.place j) ≡ some pos → i ≡ j
    pub left : AllLeft cap s.pushes at s.pops
    pub once : AllOnce s.pops
