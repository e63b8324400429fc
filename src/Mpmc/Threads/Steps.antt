-- ===== src/Mpmc/Threads/Steps.antt =====
-- Each access of a thread on a ring of src/ring_mpmc.c keeps what holds of all threads.
use ggmk.Base.{
  ℕ, suc, ◌+◌, ◌%◌, ◌^◌, ◌≤◌, ◌<◌, ◌≡◌, ◌∙◌, refl, sym, ap, inl, inr, arith, Bool, true, false, not,
  ◌&&◌, none, some, List, [], ◌++◌, get_elem?, ◌==◌, Bool-cases, mod-ne, add32, sub32,
}
use mathlib.Core.Path.{subst}
use ggmk.Bits.{IsPow2}
use ggmk.Mpmc.{is_negative}
use ggmk.Mpmc.Threads.{
  Shared, Place, Turn, push, pop, push_compare, pop_compare, idle, push_start, push_tail, push_seq,
  push_copy, push_store, pop_start, pop_head, pop_seq, pop_copy, pop_store, Call, Turn, called,
  cell, access, pushed, popped, update, System, step,
}
use ggmk.Mpmc.Threads.Inv.{ticket, IsAt, Fits, Inv}
use ggmk.Mpmc.Threads.Moves.{alone, cell_lem, in_ring, no_wrap, claim_push, claim_pop}
use ggmk.Mpmc.Threads.Stores.{copied, published}
use ggmk.Mpmc.Threads.Releases.{released}

module _ {A : Type 0} {cap n : ℕ} {s : System A} {at : ℕ → ℕ} {full : ℕ → Bool}
    (inv : Inv cap n s at full) (pow : IsPow2 cap) (two : 1 < cap) (small : n + cap + 2 < 2 ^ 31)
    (m : Turn A) where
  abbrev r : Shared A
  r = s.ring

  abbrev i : ℕ
  i = m.thread

  -- what a load of `seq` may give
  seq_le : (j : ℕ) → j < cap → r.seq j ≤ r.tail + r.cap
  seq_le j lt =
      let (e, lo) = inv.placed j lt in
      elim (Bool-cases (full j)) [
        | inl is_full ↦ let (f, low, sent) = inv.filled j lt is_full in omega (arith, inv.capacity)
        | inr is_empty ↦ omega (arith, inv.empty j lt is_empty, inv.capacity)
      ]

  seen_push : (pos : ℕ) → r.seq (pos % r.cap) ≡ pos → IsAt r.cap at full pos false
  seen_push pos seen =
      let c = pos % r.cap in
      let lt = in_ring inv pow two small i pos in
      let (e, lo) = inv.placed c lt in
      elim (Bool-cases (full c)) [
        | inl is_full ↦
            let (f, low, sent) = inv.filled c lt is_full in
            absurd (
              mod-ne (at c) pos cap (omega (arith, seen)) (omega (arith, seen))
                (e ∙ ap (λ (x : ℕ). pos % x) inv.capacity))
        | inr is_empty ↦ (sym (inv.empty c lt is_empty) ∙ seen, is_empty)
      ]

  seen_pop : (pos : ℕ) → r.seq (pos % r.cap) ≡ suc pos → IsAt r.cap at full pos true
  seen_pop pos seen =
      let c = pos % r.cap in
      let lt = in_ring inv pow two small i pos in
      let (e, lo) = inv.placed c lt in
      elim (Bool-cases (full c)) [
        | inl is_full ↦
            let (f, low, sent) = inv.filled c lt is_full in (omega (arith, seen), is_full)
        | inr is_empty ↦
            let f = inv.empty c lt is_empty in
            absurd (
              mod-ne pos (at c) cap (omega (arith, seen)) (omega (arith, seen))
                (sym (e ∙ ap (λ (x : ℕ). pos % x) inv.capacity)))
      ]

  abbrev moved : Shared A → Place A → List A → List (ℕ × A) → System A
  moved ring p xs ys = record {
    ring = ring;
    place = update s.place i p;
    pushes = s.pushes ++ xs;
    pops = s.pops ++ ys;
  }

  abbrev Kept : System A → Type 0
  Kept t = (at' : ℕ → ℕ) × (full' : ℕ → Bool) × Inv cap (suc n) t at' full'

  only : (p : Place A) → Fits r s.pushes at full p → ticket p ≡ none → Kept (moved r p [] [])
  only p f e = (
    at,
    full,
    alone inv pow two small i p f (λ pos t. let g : none ≡ some pos = sym e ∙ t in absurd (cc)),
  )

  at_push_seq :
      (elem : A) (tail seq : ℕ)
      → Fits r s.pushes at full (push_seq elem tail seq)
      → Kept (
          moved
            (push_compare r m.spurious elem tail seq).0
            (push_compare r m.spurious elem tail seq).1
            (pushed (push_seq elem tail seq) (push_compare r m.spurious elem tail seq).1)
            [])
  at_push_seq elem tail seq (lo, few, fresh) = elim (Bool-cases (sub32 seq tail == 0)) [
    | inr differs ↦ elim (Bool-cases (is_negative (sub32 seq tail))) [
      | inl negative ↦ rw (differs, negative) (only idle tt refl)
      | inr positive ↦ rw (differs, positive) (only (push_start elem) tt refl)
    ]
    | inl equal ↦ elim (Bool-cases (not m.spurious && (r.tail == tail))) [
      | inr lost ↦ rw (equal, lost) (only (push_tail elem r.tail) (omega arith) refl)
      | inl won ↦
          let e : tail ≡ r.tail = ground arith in
          let zero_diff : sub32 seq tail ≡ 0 = ground arith in
          let same : seq ≡ tail = omega (arith, inv.early, inv.capacity, zero_diff) in
          let there = subst (λ (x : ℕ). IsAt r.cap at full x false) e (fresh same e) in
          rw (equal, won, no_wrap inv pow two small i tail lo, e)
            (at, full, claim_push inv pow two small i elem there)
    ]
  ]

  at_pop_seq :
      (head seq : ℕ)
      → Fits r s.pushes at full (pop_seq head seq)
      → Kept
          (moved (pop_compare r m.spurious head seq).0 (pop_compare r m.spurious head seq).1 [] [])
  at_pop_seq head seq (lo, few, fresh) =
      let next : add32 head 1 ≡ suc head =
        no_wrap inv pow two small i head (omega (arith, inv.ordered)) in
      elim (Bool-cases (sub32 seq (add32 head 1) == 0)) [
        | inr differs ↦ elim (Bool-cases (is_negative (sub32 seq (add32 head 1)))) [
          | inl negative ↦ rw (differs, negative) (only idle tt refl)
          | inr positive ↦ rw (differs, positive) (only pop_start tt refl)
        ]
        | inl equal ↦ elim (Bool-cases (not m.spurious && (r.head == head))) [
          | inr lost ↦ rw (equal, lost) (only (pop_head r.head) (omega arith) refl)
          | inl won ↦
              let e : head ≡ r.head = ground arith in
              let zero_diff : sub32 seq (add32 head 1) ≡ 0 = ground arith in
              let same : seq ≡ suc head =
                omega (arith, inv.early, inv.ordered, inv.capacity, rw next at zero_diff) in
              let there = subst (λ (x : ℕ). IsAt r.cap at full x true) e (fresh same e) in
              rw (equal, won, next, e) (at, full, claim_pop inv pow two small i there)
        ]
      ]

  at_call : (c : Call A) → Kept (moved r (called c) [] [])
  at_call (push elem) = only (push_start elem) tt refl
  at_call pop = only pop_start tt refl

  here-Fits : (p : Place A) → s.place i ≡ p → Fits r s.pushes at full p
  here-Fits p here = subst (Fits r s.pushes at full) here (inv.fits i)

  cell_mod : (pos : ℕ) → cell r pos ≡ pos % r.cap
  cell_mod pos = cell_lem inv pow two small i pos ∙ ap (λ (x : ℕ). pos % x) (sym inv.capacity)

  at_place :
      (p : Place A)
      → s.place i ≡ p
      → Kept (moved (access r m p).0 (access r m p).1 (pushed p (access r m p).1) (popped p))
  unfolding access
  at_place idle here = at_call m.call
  at_place (push_start elem) here = only (push_tail elem r.tail) (omega arith) refl
  at_place (push_tail elem tail) here =
      let lo : tail ≤ r.tail = here-Fits (push_tail elem tail) here in
      rw (cell_mod tail) (
        only (push_seq elem tail (r.seq (tail % r.cap)))
          (
            lo,
            seq_le (tail % r.cap) (in_ring inv pow two small i tail),
            λ seen last. seen_push tail seen,
          )
          refl)
  at_place (push_seq elem tail seq) here =
      at_push_seq elem tail seq (here-Fits (push_seq elem tail seq) here)
  at_place (push_copy elem tail) here =
      rw (cell_mod tail) (at, full, copied inv pow two small i elem tail here)
  at_place (push_store elem tail) here =
      let (lo, there, sent, same) = here-Fits (push_store elem tail) here in
      rw (cell_mod tail, no_wrap inv pow two small i tail (omega arith))
        (_, _, published inv pow two small i elem tail here)
  at_place pop_start here = only (pop_head r.head) (omega arith) refl
  at_place (pop_head head) here =
      let lo : head ≤ r.head = here-Fits (pop_head head) here in
      rw (cell_mod head) (
        only (pop_seq head (r.seq (head % r.cap)))
          (
            lo,
            seq_le (head % r.cap) (in_ring inv pow two small i head),
            λ seen last. seen_pop head seen,
          )
          refl)
  at_place (pop_seq head seq) here = at_pop_seq head seq (here-Fits (pop_seq head seq) here)
  at_place (pop_copy head) here =
      let (lo, there) = here-Fits (pop_copy head) here in
      let (e, low, sent) = inv.filled (head % r.cap) (in_ring inv pow two small i head) there.1 in
      rw (cell_mod head) (
        at,
        full,
        alone inv pow two small i (pop_store head (r.value (head % r.cap)))
            (lo, there, ap (get_elem? s.pushes) (sym there.0) ∙ sent) (λ pos t. ap ticket here ∙ t),
      )
  at_place (pop_store head elem) here =
      let (lo, there, sent) = here-Fits (pop_store head elem) here in
      let sum : add32 head r.cap ≡ head + r.cap =
        omega (arith, inv.early, inv.ordered, inv.capacity) in
      rw (cell_mod head, sum) (_, _, released inv pow two small i elem head here)

  pub step_lem : Kept (step s m)
  unfolding step
  step_lem = at_place (s.place i) refl
