-- ===== src/Chan/Emit.antt =====
-- `gmk_chan_emit` of src/chan.c.
use ggmk.Base.{
  ℕ, ◌*◌, ◌/◌, ◌%◌, ◌==◌, ◌&&◌, Bool, not, Option, none, some, List, [], ◌∷◌, ltb, leb,
  if◌then◌else◌, length, get_elem?, ◌>>=◌, bit_or, sub32, u32_mod,
}
use ggmk.Rc.{Rc, ok, retry, fail}
use ggmk.Mpmc
use ggmk.Task.{Task, priority}
use ggmk.Metrics.{add64}
use ggmk.Sched.Enqueue.{Sched, enqueue}
use ggmk.Chan.{Sub, Chan, ChanReg, chan_p2p, with_chan}
use ggmk.Chan.Drain.{noted, metered, with_ring, drain}

-- the task with its channel
unfoldable pub marked : Task → ℕ → Task
marked task chan_id = record task { channel = chan_id; flags = bit_or task.flags 0x20 }

-- the tasks in a ring from which on only those of priority 0 are let in
unfoldable pub reserve_threshold : ℕ → ℕ
reserve_threshold ring_cap = sub32 ring_cap (ring_cap * 10 % u32_mod / 100)

-- the test of the backpressure
unfoldable pub pressed : Chan → Task → Bool
unfolding reserve_threshold priority
pressed ch task =
    leb (reserve_threshold ch.ring_cap) (Mpmc.count ch.ring) && not (priority task.flags == 0)

-- the worker of the one subscriber of a P2P channel, if it has one and it is active
abbrev pub only_sub : List Sub → Option (Option ℕ)
only_sub [] = none
only_sub (s ∷ []) = if s.active then some s.worker_id else none
only_sub (s ∷ t ∷ subs) = none

abbrev pub direct : Chan → Option (Option ℕ)
direct ch = if ch.mode == chan_p2p then only_sub ch.subs else none

-- a task that has been taken, counted
abbrev pub emitted : ChanReg → ℕ → Task → ChanReg
emitted cr chan_id task =
    metered (with_chan cr chan_id (λ (ch : Chan). record ch { emit_count = add64 ch.emit_count 1 }))
      task.tenant 8

-- a task that is refused, with its event and its metric
unfoldable pub refuse : ChanReg → ℕ → Task → ℕ → Option (Rc × Task × ChanReg)
unfolding noted
refuse cr chan_id task now = noted cr now 0x11 task.tenant task.type chan_id 0 >>= λ cr'.
    some (fail 2, task, metered cr' task.tenant 10)

module _ (weak : List Bool) (chan_id : ℕ) where
  -- what follows the push to the ring
  abbrev pub after_push :
      ChanReg → Chan → Task → ℕ → Rc × Mpmc.Ring Task → Option (Rc × Task × ChanReg)
  after_push cr ch task now (ok, ring) =
      let buffered = emitted (with_ring cr chan_id ring) chan_id task in
      let drained = drain weak chan_id buffered 1 now >>= λ r. some (ok, task, r.1) in
      if ch.mode == chan_p2p && ltb 0 (length ch.subs) then drained else some (ok, task, buffered)
  after_push cr ch task now (retry, ring) = refuse (with_ring cr chan_id ring) chan_id task now
  after_push cr ch task now (fail code, ring) = refuse (with_ring cr chan_id ring) chan_id task now

  -- the task buffered in the ring
  unfoldable pub buffer : ChanReg → Chan → Task → ℕ → Option (Rc × Task × ChanReg)
  unfolding refuse
  buffer cr ch task now = Mpmc.push weak ch.ring task >>= λ r. after_push cr ch task now r

  -- what follows the try to enqueue the task directly
  abbrev pub after_direct : ChanReg → Chan → ℕ → Rc × Task × Sched → Option (Rc × Task × ChanReg)
  after_direct cr ch now (ok, task, sched) =
      some (ok, task, emitted (record cr { sched = sched }) chan_id task)
  after_direct cr ch now (retry, task, sched) = buffer (record cr { sched = sched }) ch task now
  after_direct cr ch now (fail code, task, sched) = buffer (record cr { sched = sched }) ch task now

  -- a task on a channel that is open
  unfoldable pub emit_open : ChanReg → Chan → Task → ℕ → Option (Rc × Task × ChanReg)
  unfolding pressed refuse buffer
  emit_open cr ch task now =
      let let_in : Option (Rc × Task × ChanReg) = elim (direct ch) [
        | none ↦ buffer cr ch task now
        | some worker_id ↦ enqueue weak cr.sched task worker_id >>= λ r. after_direct cr ch now r
      ] in
      if pressed ch task then refuse cr chan_id task now else let_in

  -- `gmk_chan_emit`: the result, the task with its channel, and the registry.
  unfoldable pub emit : ChanReg → Task → ℕ → Option (Rc × Task × ChanReg)
  unfolding emit_open marked
  emit cr task now =
      let found = get_elem? cr.channels chan_id >>= λ (ch : Chan).
      (let sent = emit_open cr ch (marked task chan_id) now in
        if ch.opened then sent else some (fail 7, task, cr)) in
      if leb (length cr.channels) chan_id then some (fail 4, task, cr) else found
