-- ===== src/Sched/Enqueue/Route.antt =====
-- `_gmk_enqueue` and `_gmk_yield` of src/enqueue.c put a task where the specification says.
use ggmk.Base.{
  ℕ, zero, suc, ◌≤◌, ◌<◌, ◌≡◌, refl, ◌∙◌, ap, Bool, true, false, Option, none, some, List, [], ◌∷◌,
  ◌++◌, arith, ltb, if◌then◌else◌, get_elem?, set, length, length-set, dec_lt, lt→ltb, le→ltb, map,
}
use ggmk.Rc.{Rc, ok, minus_one, is_ok}
use ggmk.Mpmc.Holds.{Holds}
use ggmk.Sched.Lq.{Lq}
use ggmk.Sched.Lq.Reserve.{Queued}
use ggmk.Sched.Rq.Refine.{Held}
use ggmk.Sched.Enqueue.{Sched, try_lq}
use ggmk.Sched.Enqueue.Spec.{Model, offer, offer_to}
use ggmk.Task.{Task}

abbrev pub Locals : List Lq → List (List Task) → Type 0
Locals [] [] = Unit
Locals [] (xs ∷ locals) = ⊥
Locals (lq ∷ lqs) [] = ⊥
Locals (lq ∷ lqs) (xs ∷ locals) = Queued lq xs × Locals lqs locals

-- The queues of the scheduler hold the tasks of the model.
pub record Holding (s : Sched) (m : Model) : Type 0 where
  pub ready : Held s.rq m.lanes
  pub four : length s.rq ≡ 4
  pub local : Locals s.lqs m.locals
  pub workers : s.n_workers ≡ length s.lqs
  pub over : Holds s.overflow m.bucket

is_ok-if : (b : Bool) → is_ok (if b then ok else minus_one) ≡ b
is_ok-if true = refl
is_ok-if false = refl

module _ (f : Lq → Task → Rc × Lq) (mark : Lq → ℕ) (task : Task)
    (works : (lq : Lq) (xs : List Task)
      → Queued lq xs
      → ((f lq task).0 ≡ (if ltb (length xs) (mark lq) then ok else minus_one))
        × Queued (f lq task).1 (if ltb (length xs) (mark lq) then xs ++ task ∷ [] else xs)) where
  abbrev Taken : List Lq → List (List Task) → ℕ → Type 0
  Taken lqs locals i =
      (lq : Lq) × (get_elem? lqs i ≡ some lq)
      × (is_ok (f lq task).0 ≡ (offer (map mark lqs) locals task i).0)
      × Locals (set lqs i (f lq task).1) (offer (map mark lqs) locals task i).1

  offer-Taken :
      (lqs : List Lq) (locals : List (List Task)) (i : ℕ)
      → Locals lqs locals
      → i < length lqs
      → Taken lqs locals i
  unfolding offer
  offer-Taken [] locals i held lt = absurd (omega arith)
  offer-Taken (lq ∷ lqs) [] i held lt = elim held [ ]
  offer-Taken (lq ∷ lqs) (xs ∷ locals) zero (q, held) lt =
      let (done, q') = works lq xs q in
      (lq, refl, ap is_ok done ∙ is_ok-if (ltb (length xs) (mark lq)), (q', held))
  offer-Taken (lq ∷ lqs) (xs ∷ locals) (suc i) (q, held) lt =
      let (at, got, done, held') = offer-Taken lqs locals i held (omega arith) in
      (at, got, done, (q, held'))

  offer-beyond :
      (lqs : List Lq) (locals : List (List Task)) (i : ℕ)
      → length lqs ≤ i
      → offer (map mark lqs) locals task i ≡ (false, locals)
  unfolding offer
  offer-beyond [] locals i le = refl
  offer-beyond (lq ∷ lqs) [] i le = refl
  offer-beyond (lq ∷ lqs) (xs ∷ locals) zero le = absurd (omega arith)
  offer-beyond (lq ∷ lqs) (xs ∷ locals) (suc i) le =
      rw (offer-beyond lqs locals i (omega arith)) refl

  -- The local queue of the worker is tried as the specification offers it the task.
  pub try_lq_lem :
      {s : Sched} {m : Model} (w : Option ℕ)
      → Holding s m
      → (lqs : List Lq) × (try_lq f s task w
          ≡ some ((offer_to (map mark s.lqs) m.locals task w).0, record s { lqs = lqs }))
        × Holding
            (record s { lqs = lqs })
            (record m { locals = (offer_to (map mark s.lqs) m.locals task w).1 })
  unfolding try_lq
  try_lq_lem {s} none h = (s.lqs, refl, h)
  try_lq_lem {s} {m} (some i) h = elim (dec_lt i (length s.lqs)) [
    | yes lt ↦
        let (lq, got, done, held) = offer-Taken s.lqs m.locals i h.local lt in
        let valid : ltb i s.n_workers ≡ true = lt→ltb i s.n_workers (omega (arith, h.workers)) in
        (
          set s.lqs i (f lq task).1,
          rw (try_lq, valid, got, done) refl,
          record {
            ready = h.ready;
            four = h.four;
            local = held;
            workers = rw (length-set s.lqs i (f lq task).1) h.workers;
            over = h.over;
          },
        )
    | no ge ↦
        let valid : ltb i s.n_workers ≡ false = le→ltb i s.n_workers (omega (arith, h.workers)) in
        rw (try_lq, valid, offer-beyond s.lqs m.locals i (omega arith)) (s.lqs, refl, h)
  ]
