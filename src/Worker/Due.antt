-- ===== src/Worker/Due.antt =====
-- The fourth step of a round of `gmk_worker_loop` of src/worker.c: due events go to the queues.
use mathlib.Core.Path.{subst}
use mathlib.Core.List.Perm
use ggmk.Base.{
  ℕ, zero, suc, ◌+◌, ◌<◌, ◌≤◌, ◌≡◌, ◌∙◌, ◌⊎◌, inl, inr, refl, ap, sym, Bool, Option, none, some,
  List, [], ◌∷◌, ◌++◌, arith, length, Perm, add32, ◌>>=◌,
}
use ggmk.Rc.{Rc, ok, retry, fail}
use ggmk.Mpmc.Slots.{Lands}
use ggmk.Sched.Rq.Push.{caps}
use ggmk.Sched.Enqueue.{Sched, enqueue, stamped}
use ggmk.Sched.Enqueue.Spec
use ggmk.Sched.Enqueue.Spec.{Model}
use ggmk.Sched.Enqueue.Route.{Holding}
use ggmk.Sched.Enqueue.Refine.{watermarks, enqueue_lem}
use ggmk.Sched.Enqueue.Keeps.{Keeps, enqueue-Keeps}
use ggmk.Sched.Evq.{Entry, Evq, pop_due, tick_of}
use ggmk.Sched.Evq.Order.{key}
use ggmk.Sched.Evq.Holds.{IsValid, entries}
use ggmk.Sched.Evq.Pop.{Due, found_rc, found_task, evq_pop_due_lem}
use ggmk.Task.{Task}

-- `GMK_EVQ_DRAIN_LIMIT`
abbrev pub evq_drain_limit : ℕ
evq_drain_limit = 256

module _ (weak : List Bool) (tick id : ℕ) where
  -- what follows a pop; the result of `_gmk_enqueue` is not looked at
  abbrev pub after_pop :
      (Sched → Option (ℕ × Sched)) → ℕ → Sched → Rc × Option Task × Evq → Option (ℕ × Sched)
  after_pop next drained s (ok, some task, evq) =
      enqueue weak (record s { evq = evq }) task (some id) >>= λ e. next e.2
  after_pop next drained s (ok, none, evq) = none
  after_pop next drained s (retry, out, evq) = some (drained, record s { evq = evq })
  after_pop next drained s (fail code, out, evq) = some (drained, record s { evq = evq })

  -- The loop over `gmk_evq_pop_due`, with `left` events to the limit: the events drained.
  unfoldable pub drain_due : ℕ → ℕ → Sched → Option (ℕ × Sched)
  drain_due zero drained s = some (drained, s)
  drain_due (suc left) drained s =
      let next = λ (s : Sched). drain_due left (suc drained) s in
      pop_due s.evq tick >>= λ r. after_pop next drained s r

-- Where the specification puts tasks in turn, numbered from `seq` on.
unfoldable pub place_all : List ℕ → List ℕ → Option ℕ → ℕ → List Entry → Model → Model
place_all marks cs worker_id seq [] m = m
place_all marks cs worker_id seq (e ∷ events) m =
    place_all marks cs worker_id (add32 seq 1) events
      (Spec.enqueue marks cs m (record e.task { seq = seq }) worker_id).1

-- The events are due.
abbrev pub AllDue : ℕ → List Entry → Type 0
AllDue tick [] = Unit
AllDue tick (e ∷ events) = (tick_of e.key ≤ tick) × AllDue tick events

-- No event of the queue is due.
abbrev pub NoneDue : ℕ → Evq → Type 0
NoneDue tick evq = (i : ℕ) → i < evq.count → tick < tick_of (key evq.heap i)

module _ (weak : List Bool) (lands : Lands weak) (tick id : ℕ) where
  -- What a drain of at most `left` events leaves.
  pub record Drained (s : Sched) (m : Model) (left drained : ℕ) (result : Option (ℕ × Sched))
      : Type 0 where
    pub events : List Entry
    pub after : Sched
    pub done : result ≡ some (drained + length events, after)
    pub placed : Holding after (place_all (watermarks s) (caps s.rq) (some id) s.next_seq events m)
    pub valid : IsValid after.evq
    pub same : Perm (events ++ entries after.evq) (entries s.evq)
    pub due : AllDue tick events
    pub limited : length events ≤ left
    pub complete : (length events ≡ left) ⊎ NoneDue tick after.evq

  nothing_due :
      (s : Sched) (m : Model) (left drained : ℕ)
      → Holding s m
      → IsValid s.evq
      → (left ≡ 0) ⊎ NoneDue tick s.evq
      → Drained s m left drained (some (drained, s))
  unfolding place_all
  nothing_due s m left drained h v end =
      let e : drained ≡ drained + 0 = omega arith in
      record {
        events = [];
        after = s;
        done = ap (λ (n : ℕ). some (n, s)) e;
        placed = h;
        valid = v;
        same = Perm.rfl;
        due = tt;
        limited = omega arith;
        complete = elim end [ inl limit ↦ inl (sym limit) | inr none_due ↦ inr none_due ];
      }

  one_more :
      (s s' : Sched) (m : Model) (left drained : ℕ) (e : Entry) (evq : Evq)
      (result : Option (ℕ × Sched))
      → Perm (e ∷ entries evq) (entries s.evq)
      → tick_of e.key ≤ tick
      → (watermarks s' ≡ watermarks s)
        × (caps s'.rq ≡ caps s.rq)
        × (s'.next_seq ≡ add32 s.next_seq 1)
        × (s'.evq ≡ evq)
      → Drained s'
          (Spec.enqueue (watermarks s) (caps s.rq) m (stamped s e.task) (some id)).1
          left
          (suc drained)
          result
      → Drained s m (suc left) drained result
  unfolding place_all
  one_more s s' m left drained e evq result perm is_due (marks, cs, seq, keeps) d =
      let n : suc drained + length d.events ≡ drained + suc (length d.events) = omega arith in
      record {
        events = e ∷ d.events;
        after = d.after;
        done = d.done ∙ ap (λ (n : ℕ). some (n, d.after)) n;
        placed = rw (marks, cs, seq) at d.placed;
        valid = d.valid;
        same = Perm.trans (Perm.cons e (rw keeps at d.same)) perm;
        due = (is_due, d.due);
        limited = omega (arith, d.limited);
        complete = elim d.complete [ inl full ↦ inl (ap suc full) | inr none_due ↦ inr none_due ];
      }

  -- the first event, with what the rest of the drain leaves
  first_event :
      (left drained : ℕ) (s : Sched) (m : Model)
      → Holding s m
      → ((drained' : ℕ) (s' : Sched) (m' : Model)
          → Holding s' m'
          → IsValid s'.evq
          → Drained s' m' left drained' (drain_due weak tick id left drained' s'))
      → (found : Option Entry) (evq : Evq)
      → pop_due s.evq tick ≡ some (found_rc found, found_task found, evq)
      → IsValid evq
      → Due s.evq tick found evq
      → Drained s m (suc left) drained (drain_due weak tick id (suc left) drained s)
  unfolding drain_due
  first_event left drained s m h rest none evq done valid (same, later) =
      rw (drain_due, done, same)
        (nothing_due s m (suc left) drained h (rw same at valid) (inr later))
  first_event left drained s m h rest (some e) evq done valid (perm, is_due, least) =
      let s1 : Sched = record s { evq = evq } in
      let holding : Holding s1 m = record {
        ready = h.ready;
        four = h.four;
        local = h.local;
        workers = h.workers;
        over = h.over;
      } in
      let (s', placed, held) = enqueue_lem weak lands holding e.task (some id) in
      let keeps = subst (λ r. Keeps s1 r) placed (enqueue-Keeps weak s1 e.task (some id)) in
      rw (drain_due, done, placed)
        (one_more s s' m left drained e evq _ perm is_due keeps
          (rest (suc drained) s' _ held (subst (λ q. IsValid q) (sym keeps.3) valid)))

  pub drain_due_lem :
      (left drained : ℕ) (s : Sched) (m : Model)
      → Holding s m
      → IsValid s.evq
      → Drained s m left drained (drain_due weak tick id left drained s)
  unfolding drain_due
  drain_due_lem zero drained s m h v = nothing_due s m 0 drained h v (inl refl)
  drain_due_lem (suc left) drained s m h v =
      let (found, evq, done, valid, is_due) = evq_pop_due_lem v tick in
      first_event left drained s m h
        (λ drained' s' m' h' v'. drain_due_lem left drained' s' m' h' v') found evq done valid
        is_due
