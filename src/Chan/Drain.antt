-- ===== src/Chan/Drain.antt =====
-- `gmk_chan_drain` of src/chan.c: buffered tasks go to the queues of the subscribers.
-- The number that it returns is the unsigned one, without the cast to `int`.
use ggmk.Base.{
  ℕ, zero, suc, ◌-◌, ◌%◌, ◌^◌, ◌==◌, ◌&&◌, Bool, not, Option, none, some, List, [], ◌∷◌, ltb, leb,
  if◌then◌else◌, length, get_elem?, ◌>>=◌, bit_and,
}
use ggmk.Rc.{Rc, ok, retry, fail}
use ggmk.Mpmc
use ggmk.Task.{Task}
use ggmk.Trace.{Event, write_if}
use ggmk.Metrics.{add64, inc_if}
use ggmk.Alloc.Unified.{Headers, payload_retain, payload_release}
use ggmk.Sched.Enqueue.{Sched, enqueue}
use ggmk.Chan.{Sub, Chan, ChanReg, chan_p2p, chan_lossy, chan_sys_dropped, with_chan}

-- an event of a task on a channel
unfoldable pub noted : ChanReg → ℕ → ℕ → ℕ → ℕ → ℕ → ℕ → Option ChanReg
unfolding write_if
noted cr now ev_type tenant type arg0 arg1 =
    let ev : Event = record {
      tsc = now;
      ev_type = ev_type;
      tenant = tenant;
      type = type % 2 ^ 16;
      arg0 = arg0;
      arg1 = arg1;
    } in
    write_if cr.trace ev >>= λ trace. some (record cr { trace = trace })

-- a metric of a tenant counted
abbrev pub metered : ChanReg → ℕ → ℕ → ChanReg
metered cr tenant metric_id = record cr { metrics = inc_if cr.metrics tenant metric_id }

-- a drop counted
abbrev pub count_drop : ChanReg → ℕ → ChanReg
count_drop cr chan_id =
    with_chan cr chan_id (λ (ch : Chan). record ch { drop_count = add64 ch.drop_count 1 })

-- the ring of a channel replaced
abbrev pub with_ring : ChanReg → ℕ → Mpmc.Ring Task → ChanReg
with_ring cr chan_id ring = with_chan cr chan_id (λ (ch : Chan). record ch { ring = ring })

-- the test for a payload that counts references
abbrev pub has_rc : Task → Bool
has_rc task = not (bit_and task.flags 0x40 == 0) && not (task.payload_ptr == 0)

-- the subscribers that are active, counted
pub count_active : List Sub → ℕ
count_active [] = 0
count_active (s ∷ subs) = if s.active then suc (count_active subs) else count_active subs

-- the loop over `gmk_payload_retain`
pub retain_times : ℕ → Headers → ℕ → Headers
retain_times zero headers payload = headers
retain_times (suc n) headers payload = retain_times n (payload_retain headers payload) payload

-- the payload retained for the copies beyond the first
unfoldable pub retain_copies : ChanReg → List Sub → Task → ChanReg
unfolding count_active retain_times
retain_copies cr subs task =
    if has_rc task && ltb 1 (count_active subs)
    then record cr { headers = retain_times (count_active subs - 1) cr.headers task.payload_ptr }
    else cr

-- the release of the reference of a copy
unfoldable pub release_copy : ChanReg → Task → Option ChanReg
release_copy cr task =
    let released = payload_release cr.headers cr.alloc task.payload_ptr >>= λ r.
    some (record cr { headers = r.1; alloc = r.2 }) in
    if has_rc task then released else some cr

module _ (weak : List Bool) where
  -- `route_to_dead_letter`
  unfoldable pub route_to_dead_letter : ChanReg → Task → Option ChanReg
  route_to_dead_letter cr task = get_elem? cr.channels chan_sys_dropped >>= λ (dead : Chan).
      (let pushed =
          Mpmc.push weak dead.ring task >>= λ r. some (with_ring cr chan_sys_dropped r.1) in
        if dead.opened then pushed else some cr)

  module _ (chan_id : ℕ) where
    -- what follows the try to enqueue a task of a P2P channel
    abbrev pub after_p2p : ChanReg → Rc × Task × Sched → Option ChanReg
    after_p2p cr (ok, task, sched) = some (record cr { sched = sched })
    after_p2p cr (retry, task, sched) =
        route_to_dead_letter (record cr { sched = sched }) task >>= λ cr'.
        some (count_drop cr' chan_id)
    after_p2p cr (fail code, task, sched) =
        route_to_dead_letter (record cr { sched = sched }) task >>= λ cr'.
        some (count_drop cr' chan_id)

    -- a task to the one subscriber
    unfoldable pub deliver_p2p : ChanReg → List Sub → Task → Option ChanReg
    unfolding route_to_dead_letter
    deliver_p2p cr [] task = none
    deliver_p2p cr (s ∷ subs) task =
        let offered = enqueue weak cr.sched task s.worker_id >>= λ r. after_p2p cr r in
        if s.active then offered else some cr

    -- a copy that subscriber `i` could not take
    unfoldable pub lose_copy : ChanReg → Chan → Task → ℕ → ℕ → Option ChanReg
    unfolding noted route_to_dead_letter release_copy
    lose_copy cr ch copy i now =
        let dropped =
          noted (count_drop cr chan_id) now 0x12 copy.tenant copy.type chan_id i >>= λ cr'.
          some (metered cr' copy.tenant 9) in
        let lost = if ch.guarantee == chan_lossy then dropped else route_to_dead_letter cr copy in
        lost >>= λ cr'. release_copy cr' copy

    abbrev pub after_copy : ChanReg → Chan → ℕ → ℕ → Rc × Task × Sched → Option ChanReg
    unfolding lose_copy
    after_copy cr ch i now (ok, copy, sched) = some (record cr { sched = sched })
    after_copy cr ch i now (retry, copy, sched) =
        lose_copy (record cr { sched = sched }) ch copy i now
    after_copy cr ch i now (fail code, copy, sched) =
        lose_copy (record cr { sched = sched }) ch copy i now

    -- The loop over the subscribers from subscriber `i` on, for a task of a fan-out channel.
    pub fan_out : ChanReg → Chan → List Sub → Task → ℕ → ℕ → Option ChanReg
    unfolding after_copy
    fan_out cr ch [] task i now = some cr
    fan_out cr ch (s ∷ subs) task i now =
        let copied = enqueue weak cr.sched task s.worker_id >>= λ r. after_copy cr ch i now r in
        let next = λ (cr' : ChanReg). fan_out cr' ch subs task (suc i) now in
        (if s.active then copied else some cr) >>= next

    -- one task
    unfoldable pub deliver : ChanReg → Chan → List Sub → Task → ℕ → Option ChanReg
    unfolding deliver_p2p fan_out retain_copies
    deliver cr ch subs task now =
        if ch.mode == chan_p2p
        then deliver_p2p cr subs task
        else fan_out (retain_copies cr subs task) ch subs task 0 now

    -- The loop of `gmk_chan_drain`, with `left` tasks to the limit: the tasks drained.
    unfoldable pub drain_loop : ℕ → ℕ → List Sub → ChanReg → ℕ → Option (ℕ × ChanReg)
    unfolding deliver
    drain_loop zero drained subs cr now = some (drained, cr)
    drain_loop (suc left) drained subs cr now =
        let next = λ (cr' : ChanReg). drain_loop left (suc drained) subs cr' now in
        get_elem? cr.channels chan_id >>= λ (ch : Chan).
        (Mpmc.pop weak ch.ring >>= λ r. elim r.1 [
          | none ↦ some (drained, with_ring cr chan_id r.2)
          | some task ↦ deliver (with_ring cr chan_id r.2) ch subs task now >>= next
        ])

    -- `gmk_chan_drain`
    unfoldable pub drain : ChanReg → ℕ → ℕ → Option (ℕ × ChanReg)
    unfolding drain_loop noted
    drain cr limit now =
        let most = if limit == 0 then 0xffff_ffff else limit in
        let told = λ (r : ℕ × ChanReg).
          (let event = noted r.1 now 0x13 0 0 chan_id r.0 >>= λ cr'. some (r.0, cr') in
            if ltb 0 r.0 then event else some r) in
        let found = get_elem? cr.channels chan_id >>= λ (ch : Chan).
        (let run = drain_loop most 0 ch.subs cr now >>= told in
          if length ch.subs == 0 then some (0, cr) else run) in
        if leb (length cr.channels) chan_id then some (0, cr) else found
