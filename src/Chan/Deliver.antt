-- ===== src/Chan/Deliver.antt =====
-- `gmk_chan_drain` of src/chan.c, for a P2P channel.
use mathlib.Core.Path.{subst}
use ggmk.Base.{
  ℕ, ◌≡◌, ◌∙◌, refl, ap, Bool, true, Option, some, List, [], ◌∷◌, ◌++◌, arith, length, dec_lt, ◌<◌,
  add32, lt→ltb, le→ltb, ◌>>=◌,
}
use ggmk.Rc.{Rc, ok, retry, fail}
use ggmk.Mpmc.Slots.{Lands, Lands-ne}
use ggmk.Mpmc.Push.{push-room, push-full, pushed-Holds}
use ggmk.Task.{Task}
use ggmk.Metrics.{add64}
use ggmk.Sched.Enqueue.{Sched, enqueue, stamped}
use ggmk.Sched.Rq.Push.{caps}
use ggmk.Sched.Enqueue.Spec
use ggmk.Sched.Enqueue.Spec.{Model}
use ggmk.Sched.Enqueue.Route.{Holding}
use ggmk.Sched.Enqueue.Refine.{watermarks, enqueue_lem}
use ggmk.Sched.Enqueue.Keeps.{Keeps, enqueue-Keeps}
use ggmk.Chan.{Sub, Chan, ChanReg}
use ggmk.Chan.Drain.{count_drop, route_to_dead_letter, after_p2p, deliver_p2p}
use ggmk.Chan.Flow.{Flow, Limits, numbered, joined, dropped, settled, offered, settle}
use ggmk.Chan.Changes.{resched, rework, rering}
use ggmk.Chan.Serving.{Serving}

module _ (weak : List Bool) (lands : Lands weak) (c : ℕ) (p q : Chan) (limits : Limits) where
  abbrev pub Serves : ChanReg → List Task → Flow → Type 0
  Serves cr buf f = Serving cr c p q limits buf f

  -- A call returns a registry that serves the flow.
  abbrev pub Settles : Option ChanReg → List Task → Flow → Type 0
  Settles r buf f = (cr' : ChanReg) × (r ≡ some cr') × Serves cr' buf f

  -- a task offered to a worker
  pub offered_lem :
      (cr : ChanReg) (buf : List Task) (f : Flow) (task : Task) (worker_id : Option ℕ)
      → Serves cr buf f
      → (s : Sched) × (enqueue weak cr.sched task worker_id
          ≡ some ((offered limits worker_id f task).0, numbered f task, s))
        × Serves
            (record cr { sched = s })
            buf
            (record f {
              model = (offered limits worker_id f task).1;
              next_seq = add32 f.next_seq 1;
            })
  offered_lem cr buf f task worker_id v =
      let (s, done, held) = enqueue_lem weak lands v.sched task worker_id in
      let (marks, cs, seq, evq) =
        subst (λ r. Keeps cr.sched r) done (enqueue-Keeps weak cr.sched task worker_id) in
      let same : Spec.enqueue (watermarks cr.sched) (caps cr.sched.rq) f.model
            (stamped cr.sched task) worker_id
          ≡ offered limits worker_id f task =
        rw (v.marked, v.lanes, v.seq) refl in
      let number : stamped cr.sched task ≡ numbered f task = rw v.seq refl in
      (
        s,
        done
            ∙ ap (λ (r : Rc × Model). some (r.0, stamped cr.sched task, s)) same
            ∙ ap (λ (t : Task). some ((offered limits worker_id f task).0, t, s)) number,
        resched c p q limits cr buf f s _ v (subst (λ r. Holding s r.1) same held) (marks, cs, seq),
      )

  module _ (dead_open : q.opened ≡ true) where
    route_to_dead_letter_lem :
        (cr : ChanReg) (buf : List Task) (f : Flow) (task : Task)
        → Serves cr buf f
        → Settles
            (route_to_dead_letter weak cr task)
            buf
            (record f { dead = joined limits.dead_cap f.dead task })
    unfolding route_to_dead_letter
    route_to_dead_letter_lem cr buf f task v =
        let d = v.dead_port in
        let is_open : d.ch.opened ≡ true = ap (λ (ch : Chan). ch.opened) d.same ∙ dead_open in
        elim (dec_lt (length f.dead) limits.dead_cap) [
          | yes lt ↦
              let room : length f.dead < d.ch.ring.cap = omega (arith, d.sized) in
              rw
                (
                  lt→ltb (length f.dead) limits.dead_cap lt,
                  route_to_dead_letter,
                  d.at,
                  is_open,
                  push-room d.holds weak task room lands,
                )
                (
                  _,
                  refl,
                  rering c p q limits cr buf f _ (f.dead ++ task ∷ []) v
                      (pushed-Holds d.holds task room) refl,
                )
          | no ge ↦
              let full : length f.dead ≡ d.ch.ring.cap = omega (arith, d.sized, d.holds.fits) in
              rw
                (
                  le→ltb (length f.dead) limits.dead_cap (omega arith),
                  route_to_dead_letter,
                  d.at,
                  is_open,
                  push-full d.holds weak task (Lands-ne weak lands) full,
                )
                (_, refl, rering c p q limits cr buf f _ f.dead v d.holds refl)
        ]

    -- a task that found no place
    lost_lem :
        (cr : ChanReg) (buf : List Task) (f : Flow) (task : Task)
        → Serves cr buf f
        → Settles
            (route_to_dead_letter weak cr task >>= λ cr'. some (count_drop cr' c))
            buf
            (dropped limits f task)
    lost_lem cr buf f task v =
        let (cr', done, v') = route_to_dead_letter_lem cr buf f task v in
        rw done (
          _,
          refl,
          rework c p q limits cr' buf buf _
              (λ (ch : Chan). record ch { drop_count = add64 ch.drop_count 1 }) (add64 f.drops 1)
              f.emits v' refl v'.port.holds refl (ap (λ n. add64 n 1) v'.port.dropped)
              v'.port.emitted,
        )

    after_p2p_lem :
        (cr : ChanReg) (buf : List Task) (f : Flow) (rc : Rc) (task : Task) (s : Sched)
        (model : Model)
        → Serves
            (record cr { sched = s })
            buf
            (record f { model = model; next_seq = add32 f.next_seq 1 })
        → Settles (after_p2p weak c cr (rc, task, s)) buf (settled limits f task rc model)
    after_p2p_lem cr buf f ok task s model v = (_, refl, v)
    after_p2p_lem cr buf f retry task s model v = lost_lem (record cr { sched = s }) buf _ task v
    after_p2p_lem cr buf f (fail code) task s model v =
        lost_lem (record cr { sched = s }) buf _ task v

    pub deliver_p2p_lem :
        (cr : ChanReg) (buf : List Task) (f : Flow) (s : Sub) (subs : List Sub) (task : Task)
        → s.active ≡ true
        → Serves cr buf f
        → Settles (deliver_p2p weak c cr (s ∷ subs) task) buf (settle limits s.worker_id f task)
    unfolding deliver_p2p settle
    deliver_p2p_lem cr buf f s subs task active v =
        let (sched, done, v') = offered_lem cr buf f task s.worker_id v in
        rw (deliver_p2p, active, done)
          (after_p2p_lem cr buf f _ (numbered f task) sched (offered limits s.worker_id f task).1
            v')
