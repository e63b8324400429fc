-- ===== src/Sched/Evq/Up.antt =====
-- `heap_sift_up` of src/sched_evq.c restores the heap order above one entry.
use mathlib.Core.List.Perm
use ggmk.Base.{
  ℕ, zero, suc, ◌+◌, ◌≤◌, ◌<◌, ◌≡◌, ◌≢◌, ◌∙◌, refl, List, arith, length, le→ltb, lt→ltb, dec_lt,
}
use ggmk.Sched.Evq.{Entry, parent, sift_up_loop, heap_sift_up}
use ggmk.Sched.Evq.Order.{
  key, Sifts, exchanged, key_lt_lem, exchange_lem, length-exchanged, key-exchanged, exchanged-perm,
}

-- Only the edge above entry `i` may be out of order.
pub record RisesAt (n : ℕ) (heap : List Entry) (i : ℕ) : Type 0 where
  pub fits : n ≤ length heap
  pub inside : i < n
  pub edges : (c : ℕ) → 0 < c → c < n → c ≢ i → key heap (parent c) ≤ key heap c
  pub spans : (c : ℕ) → 0 < c → c < n → parent c ≡ i → 0 < i → key heap (parent i) ≤ key heap c

-- A round that exchanges the entry with its parent moves the fault there.
exchanged-RisesAt :
    (n : ℕ) (heap : List Entry) (i : ℕ)
    → RisesAt n heap i
    → 0 < i
    → key heap i < key heap (parent i)
    → RisesAt n (exchanged heap i (parent i)) (parent i)
exchanged-RisesAt n heap i v pos lower =
    let hi : i < length heap = omega (arith, v.fits, v.inside) in
    let hp : parent i < length heap = omega arith in
    let at = key-exchanged heap i (parent i) hi hp in
    record {
      fits = omega (arith, v.fits, length-exchanged heap i (parent i) hi hp);
      inside = omega (arith, v.inside);
      edges = λ c p q ne. ground (arith, at c, at (parent c), v.edges c, v.spans c);
      spans =
          λ c p q e r. ground (arith, at c, at (parent (parent i)), v.edges c, v.edges (parent i));
    }

sift_up_loop-Sifts :
    (fuel n : ℕ) (heap : List Entry) (i : ℕ)
    → i < fuel
    → RisesAt n heap i
    → Sifts n heap (sift_up_loop fuel heap i)
unfolding sift_up_loop
sift_up_loop-Sifts zero n heap i f v = absurd (omega arith)
sift_up_loop-Sifts (suc fuel) n heap i f v = elim (dec_lt 0 i) [
  | no top ↦
      rw (le→ltb 0 i (omega arith))
        (heap, refl, (λ c p q. v.edges c p q (omega arith)), Perm.rfl, refl)
  | yes pos ↦
      let hi : i < length heap = omega (arith, v.fits, v.inside) in
      let hp : parent i < length heap = omega arith in
      elim (dec_lt (key heap i) (key heap (parent i))) [
        | no settled ↦
            rw
              (
                lt→ltb 0 i pos,
                key_lt_lem heap i (parent i) hi hp,
                le→ltb (key heap i) (key heap (parent i)) (omega arith),
              )
              (heap, refl, (λ c p q. ground (arith, v.edges c)), Perm.rfl, refl)
        | yes lower ↦
            let (h, done, ordered, same, size) =
              sift_up_loop-Sifts fuel n (exchanged heap i (parent i)) (parent i) (omega arith)
                (exchanged-RisesAt n heap i v pos lower) in
            rw
              (
                lt→ltb 0 i pos,
                key_lt_lem heap i (parent i) hi hp,
                lt→ltb (key heap i) (key heap (parent i)) lower,
                exchange_lem heap i (parent i) hi hp,
              )
              (
                h,
                done,
                ordered,
                Perm.trans same (
                    exchanged-perm heap i (parent i) hi hp n v.inside (omega (arith, v.inside))
                      v.fits),
                size ∙ length-exchanged heap i (parent i) hi hp,
              )
      ]
]

-- `heap_sift_up` always ends, and makes a heap of the same entries if only the edge above entry `i`
-- may be out of order.
pub heap_sift_up-Sifts :
    (n : ℕ) (heap : List Entry) (i : ℕ) → RisesAt n heap i → Sifts n heap (heap_sift_up heap i)
unfolding heap_sift_up
heap_sift_up-Sifts n heap i v = sift_up_loop-Sifts (i + 1) n heap i (omega arith) v
