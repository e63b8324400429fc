-- ===== src/Chan/Send.antt =====
-- `gmk_chan_emit` of src/chan.c, for a P2P channel with its subscriber.
use mathlib.Core.Option.{some-injective}
use ggmk.Base.{
  bit_or, ℕ, ◌-◌, ◌*◌, ◌/◌, ◌<◌, ◌≡◌, ◌∙◌, refl, ap, sym, Bool, true, false, not, ◌&&◌, Option,
  some, List, [], ◌∷◌, ◌++◌, arith, leb, length, get_elem?, dec_lt, lt→ltb, le→ltb, lt→leb,
  get_elem?-lt, ◌==◌, u32_mod, Bool-cases, inl, inr,
}
use ggmk.Rc.{Rc, ok, retry, fail}
use ggmk.Mpmc.Slots.{Lands, Lands-ne}
use ggmk.Mpmc.Push.{pushed, push-room, push-full, pushed-Holds}
use ggmk.Mpmc.Refine.{count-length}
use ggmk.Task.{Task, priority}
use ggmk.Metrics.{add64}
use ggmk.Sched.Enqueue.{Sched}
use ggmk.Chan.{Sub, Chan, ChanReg, chan_p2p}
use ggmk.Chan.Drain.{with_ring}
use ggmk.Chan.Emit.{
  marked, reserve_threshold, pressed, emitted, refuse, buffer, after_direct, emit_open, emit,
}
use ggmk.Chan.Flow.{Flow, Limits, numbered, buffered, after_offer, send}
use ggmk.Chan.Serving.{Serving}
use ggmk.Chan.Changes.{rework, noted_lem, metered_lem}
use ggmk.Chan.Deliver.{offered_lem}
use ggmk.Chan.Subscriber.{drain_lem}

-- the reserve, without its wrap-around
reserve_threshold_lem :
    (cap : ℕ) → cap * 10 < u32_mod → reserve_threshold cap ≡ cap - cap * 10 / 100
unfolding reserve_threshold
reserve_threshold_lem cap small = omega arith

module _ (weak : List Bool) (lands : Lands weak) (c : ℕ) (p q : Chan) (limits : Limits) (s : Sub)
    (dead_open : q.opened ≡ true) (p2p : p.mode ≡ chan_p2p) (active : s.active ≡ true)
    (bound : p.subs ≡ s ∷ []) where
  -- a call that returns the result and the task, and a registry that serves the flow
  abbrev pub Emits : Option (Rc × Task × ChanReg) → Rc × Task × List Task × Flow → Type 0
  Emits r out =
      (cr' : ChanReg) × (r ≡ some (out.0, out.1, cr')) × Serving cr' c p q limits out.2 out.3

  refuse_lem :
      (cr : ChanReg) (buf : List Task) (f : Flow) (task : Task) (now : ℕ)
      → Serving cr c p q limits buf f
      → Emits (refuse cr c task now) (fail 2, task, buf, f)
  unfolding refuse
  refuse_lem cr buf f task now v =
      let (cr', done, v') = noted_lem c p q limits cr buf f now 0x11 task.tenant task.type c 0 v in
      rw done (_, refl, metered_lem c p q limits cr' buf f task.tenant 10 v')

  emitted_lem :
      (cr : ChanReg) (buf : List Task) (f : Flow) (task : Task)
      → Serving cr c p q limits buf f
      → Serving (emitted cr c task) c p q limits buf (record f { emits = add64 f.emits 1 })
  emitted_lem cr buf f task v = metered_lem c p q limits _ buf _ task.tenant 8 (
      rework c p q limits cr buf buf f
        (λ (ch : Chan). record ch { emit_count = add64 ch.emit_count 1 }) f.drops (add64 f.emits 1)
        v refl v.port.holds refl v.port.dropped (ap (λ n. add64 n 1) v.port.emitted))

  buffer_lem :
      (cr : ChanReg) (ch : Chan) (buf : List Task) (f : Flow) (task : Task) (now : ℕ)
      → get_elem? cr.channels c ≡ some ch
      → Serving cr c p q limits buf f
      → Emits (buffer weak c cr ch task now) (buffered limits s.worker_id f buf task)
  unfolding buffer
  buffer_lem cr ch buf f task now at v =
      let known : ch ≡ v.port.ch = some-injective ch v.port.ch (sym at ∙ v.port.at) in
      let mode : v.port.ch.mode ≡ chan_p2p = ap (λ (ch : Chan). ch.mode) v.port.same ∙ p2p in
      let subs : v.port.ch.subs ≡ s ∷ [] = ap (λ (ch : Chan). ch.subs) v.port.same ∙ bound in
      elim (dec_lt (length buf) limits.cap) [
        | yes lt ↦
            let room : length buf < v.port.ch.ring.cap = omega (arith, v.port.sized) in
            let ring = pushed v.port.holds task in
            let v' =
              rework c p q limits cr buf (buf ++ task ∷ []) f
                (λ (ch : Chan). record ch { ring = ring }) f.drops f.emits v refl
                (pushed-Holds v.port.holds task room) refl v.port.dropped v.port.emitted in
            let (cr', done, v'') =
              drain_lem weak lands c p q limits s dead_open p2p active
                (emitted (with_ring cr c ring) c task) 1 (buf ++ task ∷ [])
                (record f { emits = add64 f.emits 1 }) now bound
                (emitted_lem (with_ring cr c ring) _ f task v') in
            rw
              (
                lt→ltb (length buf) limits.cap lt,
                known,
                buffer,
                push-room v.port.holds weak task room lands,
                mode,
                subs,
                done,
              )
              (cr', refl, v'')
        | no ge ↦
            let full : length buf ≡ v.port.ch.ring.cap =
              omega (arith, v.port.sized, v.port.holds.fits) in
            rw
              (
                le→ltb (length buf) limits.cap (omega arith),
                known,
                buffer,
                push-full v.port.holds weak task (Lands-ne weak lands) full,
              )
              (refuse_lem _ buf f task now (
                rework c p q limits cr buf buf f
                  (λ (ch : Chan). record ch { ring = v.port.ch.ring }) f.drops f.emits v refl
                  v.port.holds refl v.port.dropped v.port.emitted))
      ]

  after_direct_lem :
      (cr : ChanReg) (ch : Chan) (buf : List Task) (f : Flow) (rc : Rc) (task : Task)
      (sched : Sched) (now : ℕ)
      → get_elem? cr.channels c ≡ some ch
      → Serving (record cr { sched = sched }) c p q limits buf f
      → Emits
          (after_direct weak c cr ch now (rc, task, sched))
          (after_offer limits s.worker_id rc f buf task)
  after_direct_lem cr ch buf f ok task sched now at v =
      (_, refl, emitted_lem (record cr { sched = sched }) buf f task v)
  after_direct_lem cr ch buf f retry task sched now at v =
      buffer_lem (record cr { sched = sched }) ch buf f task now at v
  after_direct_lem cr ch buf f (fail code) task sched now at v =
      buffer_lem (record cr { sched = sched }) ch buf f task now at v

  -- `gmk_chan_emit` on an open P2P channel with one active subscriber, of a capacity that is less than 2 ^ 32 when
  -- it is multiplied by 10, marks the task with the channel, and then does what `send` says of lists of tasks;
  -- every call returns if of each call on a ring one compare-and-swap does not fail spuriously.
  pub emit_lem :
      (cr : ChanReg) (buf : List Task) (f : Flow) (task : Task) (now : ℕ)
      → p.opened ≡ true
      → p.ring_cap ≡ limits.cap
      → limits.cap * 10 < u32_mod
      → Serving cr c p q limits buf f
      → Emits (emit weak c cr task now) (
          send limits s.worker_id f buf
            (record task { channel = c; flags = bit_or task.flags 0x20 }))
  unfolding emit send pressed marked
  emit_lem cr buf f task now is_open whole small v =
      let there : leb (length cr.channels) c ≡ false =
        lt→leb c (length cr.channels) (get_elem?-lt cr.channels c v.port.ch v.port.at) in
      let opened : v.port.ch.opened ≡ true = ap (λ (ch : Chan). ch.opened) v.port.same ∙ is_open in
      let mode : v.port.ch.mode ≡ chan_p2p = ap (λ (ch : Chan). ch.mode) v.port.same ∙ p2p in
      let subs : v.port.ch.subs ≡ s ∷ [] = ap (λ (ch : Chan). ch.subs) v.port.same ∙ bound in
      let cap : v.port.ch.ring_cap ≡ limits.cap =
        ap (λ (ch : Chan). ch.ring_cap) v.port.same ∙ whole in
      let test : pressed v.port.ch (marked task c)
          ≡ leb (limits.cap - limits.cap * 10 / 100) (length buf)
            && not (priority (marked task c).flags == 0) =
        rw (pressed, cap, reserve_threshold_lem limits.cap small, count-length v.port.holds) refl in
      let (sched, done, v') =
        offered_lem weak lands c p q limits cr buf f (marked task c) s.worker_id v in
      elim (Bool-cases (
        leb (limits.cap - limits.cap * 10 / 100) (length buf)
        && not (priority (marked task c).flags == 0))) [
          | inl yes_pressed ↦
              rw (emit, there, v.port.at, opened, emit_open, test, yes_pressed)
                (refuse_lem cr buf f (marked task c) now v)
          | inr no_pressed ↦
              rw
                (
                  emit, there, v.port.at, opened, emit_open, test, no_pressed, mode, subs, active,
                  done,
                )
                (after_direct_lem cr v.port.ch buf _ _ (numbered f (marked task c)) sched now
                  v.port.at v')
        ]
