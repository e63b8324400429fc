-- ===== src/Spinlock/Liveness.antt =====
-- Every thread in the loop of `gmk_spinlock_acquire` of include/ggmk/arch/spinlock.h comes out of it.
use ggmk.Base.{
  ℕ, zero, suc, ◌+◌, ◌-◌, ◌%◌, ◌^◌, ◌≤◌, ◌<◌, ◌≡◌, ◌≢◌, ◌∙◌, refl, sym, ap, inl, inr, arith, true,
  List, ◌==◌, Bool-cases,
}
use mathlib.Core.Path.{subst}
use ggmk.Spinlock.{
  Spinlock, Place, outside, waiting, inside, leaving, Turn, access, System, step, run, start, after,
}
use ggmk.Spinlock.Order.{Front, Ordered, waiting_there, start-Ordered}
use ggmk.Spinlock.Safety.{AllBelow, after-IsOrdered}
use ggmk.Spinlock.Fair.{IsFair, fair_turn, Eventually, now, later, and_then, Eventually-run}
use ggmk.Spinlock.Waits.{Waits, rank, r, kept, mover, again, gone_after, head_below}

rank-le : (p : Place) → rank p ≤ 2
rank-le outside = omega arith
rank-le (waiting ticket) = omega arith
rank-le inside = omega arith
rank-le (leaving current) = omega arith

first_ticket :
    (l : Spinlock) (p : Place) (ticket : ℕ) → Front l p → p ≡ waiting ticket → ticket ≡ l.serving
first_ticket l p ticket (inl e) f = cc
first_ticket l p ticket (inr (inl e)) f = absurd (cc)
first_ticket l p ticket (inr (inr e)) f = absurd (cc)

module _ (n : ℕ) (few : n ≤ 2 ^ 32) (j : ℕ) where
  -- The first of the threads leaves, whatever its place.
  gone_soon :
      (bound d first k : ℕ) (s : System) (turns : ℕ → Turn) (w : Waits n first k j s turns)
      → first < k
      → rank (s.place (w.owner first)) ≤ bound
      → (turns d).thread ≡ w.owner first
      → (turns d).leaves ≡ true
      → Eventually (Waits n (suc first) k j) s turns
  gone_soon zero zero first k s turns w lt small who out =
      gone_after few w 0 lt who out (λ v lower. absurd (omega arith))
        (λ v equal d' e same. absurd (omega arith))
  gone_soon zero (suc d) first k s turns w lt small who out =
      gone_after few w (suc d) lt who out (λ v lower. absurd (omega arith))
        (λ v equal d' e same. gone_soon zero d first k _ _ v lt (omega arith) (who ∙ sym same) out)
  gone_soon (suc b) zero first k s turns w lt small who out =
      gone_after few w 0 lt who out
        (λ v lower.
          let (d'', who', out') = fair_turn v.fair (v.owner first) (head_below few v) in
          gone_soon b d'' first k _ _ v lt (omega arith) who' out')
        (λ v equal d' e same. absurd (omega arith))
  gone_soon (suc b) (suc d) first k s turns w lt small who out =
      gone_after few w (suc d) lt who out
        (λ v lower.
          let (d'', who', out') = fair_turn v.fair (v.owner first) (head_below few v) in
          gone_soon b d'' first k _ _ v lt (omega arith) who' out')
        (λ v equal d' e same.
          gone_soon (suc b) d first k _ _ v lt (omega arith) (who ∙ sym same) out)

  turn_in :
      (k : ℕ) (s : System) (turns : ℕ → Turn)
      → Waits n k k j s turns
      → (turns 0).thread ≡ j
      → Eventually (λ s' turns'. s'.place j ≡ inside) s turns
  unfolding access
  turn_in k s turns w who =
      let served : (s.lock.serving == k % 2 ^ 32) ≡ true = ground (arith, w.ordered.serving) in
      later (now (mover few w j (waiting (k % 2 ^ 32)) who w.waits ∙ rw served refl))

  turn_by :
      (k : ℕ) (s : System) (turns : ℕ → Turn) (w : Waits n k k j s turns)
      → (turns 0).thread ≢ j
      → Waits n k k j (step s (turns 0)) (λ t. turns (suc t))
  turn_by k s turns w ne = elim (r few w).gone [
    | inl e ↦ again few w k e (omega arith) (kept few w j ne ∙ w.waits)
    | inr (e, who, some_one, current, left) ↦ absurd (ne (who ∙ w.mine))
  ]

  -- The thread that is served comes in with its next turn.
  served_soon :
      (d k : ℕ) (s : System) (turns : ℕ → Turn)
      → Waits n k k j s turns
      → (turns d).thread ≡ j
      → Eventually (λ s' turns'. s'.place j ≡ inside) s turns
  served_soon zero k s turns w who = turn_in k s turns w who
  served_soon (suc d) k s turns w who = elim (Bool-cases ((turns 0).thread == j)) [
    | inl here ↦ turn_in k s turns w (ground arith)
    | inr other ↦ later (served_soon d k _ _ (turn_by k s turns w (λ e. ground arith)) who)
  ]

  enters_soon :
      (c first k : ℕ) (s : System) (turns : ℕ → Turn)
      → k ≡ first + c
      → Waits n first k j s turns
      → Eventually (λ s' turns'. s'.place j ≡ inside) s turns
  enters_soon zero first k s turns e w =
      let w' : Waits n k k j s turns =
        subst (λ (x : ℕ). Waits n x k j s turns) (let f : first ≡ k = omega arith in f) w in
      let (d, who, out) =
        fair_turn w.fair j (w.ordered.bounded j (waiting_there (s.place j) w.waits)) in
      served_soon d k s turns w' who
  enters_soon (suc c) first k s turns e w =
      let (d, who, out) = fair_turn w.fair (w.owner first) (head_below few w) in
      and_then
        (gone_soon 2 d first k s turns w (omega arith) (rank-le (s.place (w.owner first))) who out)
        (λ s' turns' w'. enters_soon c (suc first) k s' turns' (omega arith) w')

-- the thread with the ticket of a place in the order
waits_at :
    {n : ℕ} {s : System} {first last : ℕ} {owner : ℕ → ℕ}
    → Ordered n s first last owner
    → (j ticket k : ℕ) → s.place j ≡ waiting ticket
    → first ≤ k
    → k < last
    → owner k ≡ j
    → s.place j ≡ waiting (k % 2 ^ 32)
waits_at {s} {first} {owner} o j ticket k here lo hi mine = elim (Bool-cases (first == k)) [
  | inl same ↦
      let e : first ≡ k = ground arith in
      let f : s.place (owner first) ≡ waiting ticket = ap s.place (ap owner e ∙ mine) ∙ here in
      here
      ∙ ap waiting (
          first_ticket s.lock (s.place (owner first)) ticket (o.front (omega arith)) f
          ∙ o.serving
          ∙ ap (λ (x : ℕ). x % 2 ^ 32) e)
  | inr behind ↦ ap s.place (sym mine) ∙ o.behind k (ground arith) hi
]

-- Of up to 2 ^ 32 threads, after whatever turns, one that waits in gmk_spinlock_acquire comes out of it, in
-- whatever order all of them go on running, if each runs again and again and wants to give the lock back
-- again and again.
pub acquire_returns :
    (n : ℕ)
    → n ≤ 2 ^ 32
    → (past : List Turn) → AllBelow n past
    → (j ticket : ℕ) → (after start past).place j ≡ waiting ticket
    → (turns : ℕ → Turn) → IsFair n turns
    → (d : ℕ) × ((run (after start past) turns d).place j ≡ inside)
acquire_returns n few past below j ticket here turns fair =
    let s = after start past in
    let (first, last, owner, o) =
      after-IsOrdered n start few (0, 0, (λ k. 0), start-Ordered n) past below in
    let (k, lo, hi, mine) = o.known j (waiting_there (s.place j) here) in
    let w : Waits n first k j s turns = record {
      fair = fair;
      last = last;
      owner = owner;
      ordered = o;
      not_after = lo;
      within = hi;
      mine = mine;
      waits = waits_at o j ticket k here lo hi mine;
    } in
    Eventually-run (enters_soon n few j (k - first) first k s turns (omega arith) w)
