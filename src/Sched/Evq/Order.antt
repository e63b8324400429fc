-- ===== src/Sched/Evq/Order.antt =====
-- The heap order of src/sched_evq.c, and the exchange of two entries.
use mathlib.Core.List.Perm
use ggmk.Base.{
  ◌∷◌, ℕ, zero, suc, ◌≤◌, ◌<◌, ◌≡◌, refl, List, some, Option, Perm, arith, ltb, ◌==◌, if◌then◌else◌,
  length, get_or, set, take, length-set, get_elem?-get_or, get_or-set, get_or-take, take-set,
  length-take, set-perm,
}
use ggmk.Sched.Evq.{Entry, blank, parent, key_lt, exchange}

-- the entry at a position within the heap
abbrev pub entry : List Entry → ℕ → Entry
entry heap i = get_or heap i blank

abbrev pub key : List Entry → ℕ → ℕ
key heap i = (entry heap i).key

-- No entry among the first `n` is below its parent.
abbrev pub IsHeap : ℕ → List Entry → Type 0
IsHeap n heap = (c : ℕ) → 0 < c → c < n → key heap (parent c) ≤ key heap c

-- A call returns an array of the same length whose first `n` entries are those of `heap` in heap
-- order.
abbrev pub Sifts : ℕ → List Entry → Option (List Entry) → Type 0
Sifts n heap r =
    (h : List Entry) × (r ≡ some h)
    × IsHeap n h
    × Perm (take n h) (take n heap)
    × (length h ≡ length heap)

abbrev pub exchanged : List Entry → ℕ → ℕ → List Entry
exchanged heap i j = set (set heap i (entry heap j)) j (entry heap i)

-- the root of a heap is least
root_least_below :
    (k n : ℕ) (heap : List Entry) (i : ℕ) → IsHeap n heap → i < k → i < n → key heap 0 ≤ key heap i
root_least_below zero n heap i h f p = absurd (omega arith)
root_least_below (suc k) n heap i h f p =
    ground (arith, h i, root_least_below k n heap (parent i) h)

pub root_least :
    (n : ℕ) (heap : List Entry) (i : ℕ) → IsHeap n heap → i < n → key heap 0 ≤ key heap i
root_least n heap i h p = root_least_below (suc i) n heap i h (omega arith) p

module _ (heap : List Entry) (i j : ℕ) (hi : i < length heap) (hj : j < length heap) where
  pub key_lt_lem : key_lt heap i j ≡ some (ltb (key heap i) (key heap j))
  unfolding key_lt
  key_lt_lem = rw (get_elem?-get_or heap i blank hi, get_elem?-get_or heap j blank hj)

  pub exchange_lem : exchange heap i j ≡ some (exchanged heap i j)
  unfolding exchange
  exchange_lem = rw (get_elem?-get_or heap i blank hi, get_elem?-get_or heap j blank hj)

  pub length-exchanged : length (exchanged heap i j) ≡ length heap
  length-exchanged = simp length-set

  pub entry-exchanged :
      (c : ℕ)
      → entry (exchanged heap i j) c
        ≡ (if j == c then entry heap i else if i == c then entry heap j else entry heap c)
  entry-exchanged c = rw (
    get_or-set (set heap i (entry heap j)) j c (entry heap i) blank (rw length-set hj),
    get_or-set heap i c (entry heap j) blank hi,
  )

  pub key-exchanged :
      (c : ℕ)
      → key (exchanged heap i j) c
        ≡ (if j == c then key heap i else if i == c then key heap j else key heap c)
  key-exchanged c = ground (arith, entry-exchanged c)

  -- within the first `n` entries it keeps their multiset
  pub exchanged-perm :
      (n : ℕ) → i < n → j < n → n ≤ length heap → Perm (take n (exchanged heap i j)) (take n heap)
  exchanged-perm n p q fit =
      let first = set (take n heap) i (entry heap j) in
      let size : length first ≡ n = rw (length-set, length-take n heap fit) refl in
      let kept : entry first j ≡ entry heap j = ground (
        arith,
        get_or-set (take n heap) i j (entry heap j) blank,
        get_or-take n heap j blank,
        length-take n heap,
      ) in
      let one : Perm (entry heap i ∷ first) (entry heap j ∷ take n heap) =
        rw (get_or-take n heap i blank p) at
          (set-perm (take n heap) i (entry heap j) blank (omega (arith, length-take n heap))) in
      let two : Perm (entry heap j ∷ set first j (entry heap i)) (entry heap i ∷ first) =
        rw kept at (set-perm first j (entry heap i) blank (omega (arith, size))) in
      rw (take-set, take-set) (Perm.cons_inv (Perm.trans two one))
