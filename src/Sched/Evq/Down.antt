-- ===== src/Sched/Evq/Down.antt =====
-- `heap_sift_down` of src/sched_evq.c restores the heap order below one entry.
use mathlib.Core.List.Perm
use ggmk.Base.{
  ℕ, zero, suc, ◌+◌, ◌-◌, ◌*◌, ◌%◌, ◌^◌, ◌≤◌, ◌<◌, ◌≡◌, ◌≢◌, ◌∙◌, ◌⊎◌, refl, List, some, arith, ltb,
  length, inl, inr, u32_mod, ◌>>=◌, if◌then◌else◌, ℕ_discrete, true, false, ◌==◌, ==_iff,
}
use ggmk.Sched.Evq.{Entry, parent, smaller, sift_down_loop, heap_sift_down}
use ggmk.Sched.Evq.Order.{
  key, IsHeap, Sifts, exchanged, key_lt_lem, exchange_lem, length-exchanged, key-exchanged,
  exchanged-perm,
}

-- Only the edges below entry `i` may be out of order.
pub record SinksAt (n : ℕ) (heap : List Entry) (i : ℕ) : Type 0 where
  pub fits : n ≤ length heap
  pub small : n < 2 ^ 31
  pub inside : i < n
  pub edges : (c : ℕ) → 0 < c → c < n → parent c ≢ i → key heap (parent c) ≤ key heap c
  pub spans : (c : ℕ) → 0 < c → c < n → parent c ≡ i → 0 < i → key heap (parent i) ≤ key heap c

abbrev pick : ℕ → List Entry → ℕ → ℕ → ℕ
pick n heap child s =
    if ltb child n then (if ltb (key heap child) (key heap s) then child else s) else s

smaller_lem :
    (n : ℕ) (heap : List Entry) (child s : ℕ)
    → n ≤ length heap
    → s < n
    → smaller heap n child s ≡ some (pick n heap child s)
unfolding smaller
smaller_lem n heap child s fit lt = ground (arith, key_lt_lem heap child s)

-- the choice of a round, in terms of the two children
abbrev least : ℕ → List Entry → ℕ → ℕ
least n heap i = pick n heap (2 * i + 2) (pick n heap (2 * i + 1) i)

record Least (n : ℕ) (heap : List Entry) (i m : ℕ) : Type 0 where
  within : m < n
  child : (m ≡ i) ⊎ ((parent m ≡ i) × (i < m) × (key heap m < key heap i))
  below : (c : ℕ) → 0 < c → c < n → parent c ≡ i → key heap m ≤ key heap c

least-left :
    (n : ℕ) (heap : List Entry) (i : ℕ)
    → 2 * i + 1 < n
    → key heap (least n heap i) ≤ key heap (2 * i + 1)
least-left n heap i lt = ground arith

least-right :
    (n : ℕ) (heap : List Entry) (i : ℕ)
    → 2 * i + 2 < n
    → key heap (least n heap i) ≤ key heap (2 * i + 2)
least-right n heap i lt = ground arith

least-Least : (n : ℕ) (heap : List Entry) (i : ℕ) → i < n → Least n heap i (least n heap i)
least-Least n heap i lt = record {
  within = ground arith;
  child = ground arith;
  below = λ c p q e. elim (ℕ_discrete c (2 * i + 1)) [
    | yes left ↦ rw left (least-left n heap i (omega arith))
    | no other ↦
        let right : c ≡ 2 * i + 2 = omega arith in rw right (least-right n heap i (omega arith))
  ];
}

-- The two comparisons of a round.
choice_lem :
    (n : ℕ) (heap : List Entry) (i : ℕ)
    → n ≤ length heap
    → n < 2 ^ 31
    → i < n
    → (smaller heap n ((2 * i + 1) % u32_mod) i >>= λ s. smaller heap n ((2 * i + 2) % u32_mod) s)
      ≡ some (least n heap i)
choice_lem n heap i fit small lt =
    let left : (2 * i + 1) % u32_mod ≡ 2 * i + 1 = omega arith in
    let right : (2 * i + 2) % u32_mod ≡ 2 * i + 2 = omega arith in
    rw (left, right, smaller_lem n heap (2 * i + 1) i fit lt)
      (smaller_lem n heap (2 * i + 2) (pick n heap (2 * i + 1) i) fit (ground arith))

-- A round that exchanges the entry with its least child moves the fault there.
exchanged-SinksAt :
    (n : ℕ) (heap : List Entry) (i m : ℕ)
    → SinksAt n heap i
    → Least n heap i m
    → parent m ≡ i
    → i < m
    → key heap m < key heap i
    → SinksAt n (exchanged heap i m) m
exchanged-SinksAt n heap i m v s child above lower =
    let hi : i < length heap = omega (arith, v.fits, v.inside) in
    let hm : m < length heap = omega (arith, v.fits, s.within) in
    let at = key-exchanged heap i m hi hm in
    record {
      fits = omega (arith, v.fits, length-exchanged heap i m hi hm);
      small = v.small;
      inside = s.within;
      edges = λ c p q ne. ground (arith, at c, at (parent c), v.edges c, v.spans m, s.below c);
      spans = λ c p q e r. ground (arith, at c, at (parent m), v.edges c);
    }

-- The parent of each child is in order if the entry is its own least child.
settled : (n : ℕ) (heap : List Entry) (i : ℕ) → SinksAt n heap i → Least n heap i i → IsHeap n heap
settled n heap i v s c p q = elim (ℕ_discrete (parent c) i) [
  | yes e ↦ rw e (s.below c p q e)
  | no ne ↦ v.edges c p q ne
]

sift_down_round :
    (fuel n : ℕ) (heap : List Entry) (i m : ℕ)
    → SinksAt n heap i
    → Least n heap i m
    → (smaller heap n ((2 * i + 1) % u32_mod) i >>= λ s. smaller heap n ((2 * i + 2) % u32_mod) s)
      ≡ some m
    → (i < m
        → SinksAt n (exchanged heap i m) m
        → Sifts n (exchanged heap i m) (sift_down_loop fuel (exchanged heap i m) n m))
    → Sifts n heap (sift_down_loop (suc fuel) heap n i)
unfolding sift_down_loop
sift_down_round fuel n heap i m v s chosen rest = elim s.child [
  | inl stays ↦
      let end : (m == i) ≡ true = (==_iff m i).1 stays in
      let self : Least n heap i i = rw stays at s in
      rw (chosen, end) (heap, refl, settled n heap i v self, Perm.rfl, refl)
  | inr (child, above, lower) ↦
      let more : (m == i) ≡ false = ground arith in
      let hi : i < length heap = omega (arith, v.fits, v.inside) in
      let hm : m < length heap = omega (arith, v.fits, s.within) in
      let (h, done, ordered, same, size) =
        rest above (exchanged-SinksAt n heap i m v s child above lower) in
      rw (chosen, more, exchange_lem heap i m hi hm)
        (
          h,
          done,
          ordered,
          Perm.trans same (exchanged-perm heap i m hi hm n v.inside s.within v.fits),
          size ∙ length-exchanged heap i m hi hm,
        )
]

sift_down_loop-Sifts :
    (fuel n : ℕ) (heap : List Entry) (i : ℕ)
    → n - i < fuel
    → SinksAt n heap i
    → Sifts n heap (sift_down_loop fuel heap n i)
unfolding sift_down_loop
sift_down_loop-Sifts zero n heap i f v = absurd (omega arith)
sift_down_loop-Sifts (suc fuel) n heap i f v =
    sift_down_round fuel n heap i (least n heap i) v (least-Least n heap i v.inside)
      (choice_lem n heap i v.fits v.small v.inside)
      (λ up k.
        sift_down_loop-Sifts fuel n (exchanged heap i (least n heap i)) (least n heap i)
          (omega arith) k)

-- `heap_sift_down` always ends, and makes a heap of the same entries if only the edges below entry
-- `i` may be out of order.
pub heap_sift_down-Sifts :
    (n : ℕ) (heap : List Entry) (i : ℕ) → SinksAt n heap i → Sifts n heap (heap_sift_down heap n i)
unfolding heap_sift_down
heap_sift_down-Sifts n heap i v = sift_down_loop-Sifts (n + 1) n heap i (omega arith) v
