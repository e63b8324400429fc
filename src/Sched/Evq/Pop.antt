-- ===== src/Sched/Evq/Pop.antt =====
-- `gmk_evq_pop_due` of src/sched_evq.c takes the least entry, if it is due.
use mathlib.Core.List.Perm
use mathlib.Core.Path.{subst}
use ggmk.Base.{
  ℕ, suc, ◌-◌, ◌^◌, ◌≤◌, ◌<◌, ◌≡◌, ◌∙◌, refl, List, [], ◌∷◌, Option, none, some, arith, length,
  le→ltb, lt→ltb, Perm, dec_lt, take, ℕ_discrete, ◌==◌, ==_iff, set, length-set, get_elem?-get_or,
  get_or-set, take-set, take-suc, append-perm, set-perm, length-take, get_or-take, false,
}
use ggmk.Rc.{Rc, ok, minus_one}
use ggmk.Sched.Evq.{Entry, Evq, blank, parent, tick_of, pop_due, remove_root}
use ggmk.Sched.Evq.Order.{entry, key, IsHeap, root_least}
use ggmk.Sched.Evq.Down.{SinksAt, heap_sift_down-Sifts}
use ggmk.Sched.Evq.Holds.{IsValid, entries}
use ggmk.Task.{Task}

module _ (heap : List Entry) (n : ℕ) (fit : n < length heap) where
  set-SinksAt : IsHeap (suc n) heap → n < 2 ^ 31 → 0 < n → (v : Entry) → SinksAt n (set heap 0 v) 0
  set-SinksAt h small pos v =
      let at = λ (c : ℕ). get_or-set heap 0 c v blank (omega arith) in
      record {
        fits = omega (arith, length-set heap 0 v);
        small = small;
        inside = pos;
        edges = λ c p q ne. ground (arith, at c, at (parent c), h c);
        spans = λ c p q e r. absurd (omega arith);
      }

  -- the root and what is left when the last entry takes its place
  set-perm_root :
      0 < n → Perm (entry heap 0 ∷ take n (set heap 0 (entry heap n))) (take (suc n) heap)
  set-perm_root pos =
      let one : Perm (entry heap 0 ∷ set (take n heap) 0 (entry heap n))
          (entry heap n ∷ take n heap) =
        rw (get_or-take n heap 0 blank pos) at
          (set-perm (take n heap) 0 (entry heap n) blank (omega (arith, length-take n heap))) in
      rw (take-set n heap 0 (entry heap n), take-suc n heap blank fit)
        (Perm.trans one (Perm.symm (append-perm (take n heap) (entry heap n))))

  -- Without its root the heap is a heap of the other entries.
  remove_root_lem :
      IsHeap (suc n) heap
      → n < 2 ^ 31
      → (h : List Entry) × (remove_root heap n ≡ some h)
        × IsHeap n h
        × Perm (entry heap 0 ∷ take n h) (take (suc n) heap)
        × (length h ≡ length heap)
  unfolding remove_root
  remove_root_lem order small = elim (dec_lt 0 n) [
    | no one ↦
        let last : n ≡ 0 = omega arith in
        rw (le→ltb 0 n (omega arith))
          (heap, refl, (λ c p q. absurd (omega arith)), rw last (only heap (omega arith)), refl)
    | yes pos ↦
        let last = entry heap n in
        let (h, done, ordered, same, size) =
          heap_sift_down-Sifts n (set heap 0 last) 0 (set-SinksAt order small pos last) in
        rw (lt→ltb 0 n pos, get_elem?-get_or heap n blank fit, done)
          (
            h,
            refl,
            ordered,
            Perm.trans (Perm.cons (entry heap 0) same) (set-perm_root pos),
            size ∙ length-set heap 0 last,
          )
  ]
    where
      only : (xs : List Entry) → 0 < length xs → Perm (entry xs 0 ∷ take 0 xs) (take 1 xs)
      only [] p = absurd (omega arith)
      only (x ∷ xs) p = Perm.rfl

-- What a call finds: nothing, if no entry is due, or an entry that is due, with the least key of all.
abbrev pub Due : Evq → ℕ → Option Entry → Evq → Type 0
Due evq current none evq' =
    (evq' ≡ evq) × ((i : ℕ) → i < evq.count → current < tick_of (key evq.heap i))
Due evq current (some e) evq' =
    Perm (e ∷ entries evq') (entries evq)
    × (tick_of e.key ≤ current)
    × ((i : ℕ) → i < evq.count → e.key ≤ key evq.heap i)

-- how a call ends that finds `found`
abbrev pub found_rc : Option Entry → Rc
found_rc none = minus_one
found_rc (some e) = ok

abbrev pub found_task : Option Entry → Option Task
found_task none = none
found_task (some e) = some e.task

module _ {evq : Evq} (v : IsValid evq) (current_tick : ℕ) where
  -- `gmk_evq_pop_due` takes out an entry with the least key, if it is due, and returns 0 and its task;
  -- it returns -1 and changes nothing if no entry is due. The heap order is kept, and every call
  -- returns.
  pub evq_pop_due_lem :
      (found : Option Entry) × (evq' : Evq) × (pop_due evq current_tick
        ≡ some (found_rc found, found_task found, evq'))
      × IsValid evq'
      × Due evq current_tick found evq'
  unfolding pop_due
  evq_pop_due_lem = elim (ℕ_discrete evq.count 0) [
    | yes e ↦
        rw ((==_iff evq.count 0).1 e) (none, evq, refl, v, (refl, (λ i lt. absurd (omega arith))))
    | no ne ↦
        let busy : (evq.count == 0) ≡ false = ground arith in
        let fits : evq.count - 1 < length evq.heap = omega (arith, v.sized, v.within) in
        let total : suc (evq.count - 1) ≡ evq.count = omega arith in
        let order : IsHeap (suc (evq.count - 1)) evq.heap = rw total v.ordered in
        let root = get_elem?-get_or evq.heap 0 blank (omega (arith, v.sized, v.within)) in
        elim (dec_lt current_tick (tick_of (key evq.heap 0))) [
          | yes later ↦
              rw (busy, root, lt→ltb current_tick (tick_of (key evq.heap 0)) later)
                (
                  none,
                  evq,
                  refl,
                  v,
                  (refl, (λ i lt. omega (arith, root_least evq.count evq.heap i v.ordered lt))),
                )
          | no due ↦
              let (h, done, ordered, same, size) =
                remove_root_lem evq.heap (evq.count - 1) fits order
                  (omega (arith, v.small, v.within)) in
              let kept : Perm (entry evq.heap 0 ∷ take (evq.count - 1) h) (entries evq) =
                subst
                  (λ (k : ℕ). Perm (entry evq.heap 0 ∷ take (evq.count - 1) h) (take k evq.heap))
                  total same in
              rw (busy, root, le→ltb current_tick (tick_of (key evq.heap 0)) (omega arith), done)
                (
                  some (entry evq.heap 0),
                  _,
                  refl,
                  record {
                    sized = size ∙ v.sized;
                    small = v.small;
                    within = omega (arith, v.within);
                    ordered = ordered;
                  },
                  (kept, (omega arith), (λ i lt. root_least evq.count evq.heap i v.ordered lt)),
                )
        ]
  ]
