-- ===== src/Chan/Registry.antt =====
-- The operations of src/chan.c on the registry: set-up, the opening of a channel, subscription, closing.
use ggmk.Base.{
  ℕ, ◌==◌, ◌&&◌, ◌||◌, true, false, not, Option, none, some, List, [], ◌∷◌, ◌++◌, ltb, leb,
  if◌then◌else◌, length, get_elem?, map, ◌>>=◌,
}
use ggmk.Rc.{Rc, ok, fail}
use ggmk.Mpmc
use ggmk.Platform.{is_power_of_two, next_pow2}
use ggmk.Task.{Task}
use ggmk.Trace.{Trace, Event, write_if}
use ggmk.Metrics.{Metrics}
use ggmk.Alloc.Unified.{Alloc, Headers}
use ggmk.Sched.Enqueue.{Sched}
use ggmk.Chan.{
  Sub, Chan, ChanReg, chan_p2p, chan_fanout, chan_lossy, max_channels, max_chan_subs,
  chan_default_slots, chan_sys_dropped, kept_name, find_from, no_ring, with_chan,
}

-- the entry of channel 0, "sys.direct"
abbrev pub direct_chan : Chan
direct_chan = record {
  name = 115 ∷ 121 ∷ 115 ∷ 46 ∷ 100 ∷ 105 ∷ 114 ∷ 101 ∷ 99 ∷ 116 ∷ [];
  id = 0;
  mode = 0;
  guarantee = 0;
  msg_type = 0;
  ring = no_ring;
  ring_cap = 0;
  subs = [];
  opened = false;
  emit_count = 0;
  drop_count = 0;
}

-- the entry of channel 1, "sys.dropped"
abbrev pub dropped_chan : Mpmc.Ring Task → Chan
dropped_chan ring = record {
  name = 115 ∷ 121 ∷ 115 ∷ 46 ∷ 100 ∷ 114 ∷ 111 ∷ 112 ∷ 112 ∷ 101 ∷ 100 ∷ [];
  id = 1;
  mode = chan_fanout;
  guarantee = chan_lossy;
  msg_type = 0;
  ring = ring;
  ring_cap = chan_default_slots;
  subs = [];
  opened = true;
  emit_count = 0;
  drop_count = 0;
}

-- `gmk_chan_reg_init` over the pages of the ring of channel 1, or `none` for -1
unfoldable pub reg_init :
    Sched
    → Alloc
    → Headers
    → Option Trace
    → Option Metrics
    → (ℕ → List (Mpmc.Cell Task))
    → Option ChanReg
reg_init sched alloc headers trace metrics pages = Mpmc.init chan_default_slots 48 pages >>= λ ring.
    some (record {
      channels = direct_chan ∷ dropped_chan ring ∷ [];
      sched = sched;
      alloc = alloc;
      headers = headers;
      trace = trace;
      metrics = metrics;
    })

-- `gmk_chan_reg_destroy`
unfoldable pub reg_destroy : ChanReg → ChanReg
reg_destroy cr = record cr {
  channels =
      map
        (λ (ch : Chan).
          if ch.opened || ltb 0 ch.ring_cap
          then record ch { ring = (Mpmc.destroy ch.ring).0 }
          else ch)
        cr.channels;
}

-- the slots of a ring for the number asked for
unfoldable pub slots_for : ℕ → ℕ
slots_for slots =
    let wanted = if slots == 0 then chan_default_slots else slots in
    if is_power_of_two wanted then wanted else next_pow2 wanted

-- the result of `gmk_chan_open`: an id, or the code of a failure
pub data Handle : Type 0 where
  opened_as refused : ℕ → Handle

-- the entry of a channel that is opened
abbrev pub fresh_chan : ℕ → List ℕ → ℕ → ℕ → ℕ → ℕ → Mpmc.Ring Task → Chan
fresh_chan id name mode guarantee msg_type slots ring = record {
  name = kept_name name;
  id = id;
  mode = mode;
  guarantee = guarantee;
  msg_type = msg_type;
  ring = ring;
  ring_cap = slots;
  subs = [];
  opened = true;
  emit_count = 0;
  drop_count = 0;
}

-- the entry added, with its event
unfoldable pub add_chan : ChanReg → Chan → ℕ → Option (Handle × ChanReg)
add_chan cr ch now =
    let ev : Event = record {
      tsc = now;
      ev_type = 0x14;
      tenant = 0;
      type = 0;
      arg0 = ch.id;
      arg1 = ch.mode;
    } in
    write_if cr.trace ev >>= λ trace.
    some (opened_as ch.id, record cr { channels = cr.channels ++ ch ∷ []; trace = trace })

-- `gmk_chan_open`
unfoldable pub open_chan :
    ChanReg → List ℕ → ℕ → ℕ → ℕ → ℕ → (ℕ → List (Mpmc.Cell Task)) → ℕ → Option (Handle × ChanReg)
unfolding find_from slots_for add_chan
open_chan cr name mode guarantee msg_type slots pages now =
    let id = length cr.channels in
    let made : Option (Handle × ChanReg) = elim (Mpmc.init (slots_for slots) 48 pages) [
      | none ↦ some (refused 1, cr)
      | some ring ↦
          add_chan cr (fresh_chan id name mode guarantee msg_type (slots_for slots) ring) now
    ] in
    let checked : Option (Handle × ChanReg) = elim (find_from cr.channels name 0) [
      | some i ↦ some (refused 6, cr)
      | none ↦ made
    ] in
    if leb max_channels id then some (refused 2, cr) else checked

-- `gmk_chan_sub`
unfoldable pub sub : ChanReg → ℕ → ℕ → Option ℕ → Option (Rc × ChanReg)
sub cr chan_id module_id worker_id =
    let s : Sub = record { module_id = module_id; worker_id = worker_id; active = true } in
    let bound = with_chan cr chan_id (λ (ch : Chan). record ch { subs = ch.subs ++ s ∷ [] }) in
    let found = get_elem? cr.channels chan_id >>= λ (ch : Chan). some (
      if not ch.opened
      then (fail 7, cr)
      else if ch.mode == chan_p2p && leb 1 (length ch.subs)
      then (fail 12, cr)
      else if leb max_chan_subs (length ch.subs)
      then (fail 2, cr)
      else (ok, bound)) in
    if leb (length cr.channels) chan_id then some (fail 4, cr) else found

-- `gmk_chan_close`
unfoldable pub close : ChanReg → ℕ → ℕ → Option (Rc × ChanReg)
close cr chan_id now =
    let ev : Event = record {
      tsc = now;
      ev_type = 0x15;
      tenant = 0;
      type = 0;
      arg0 = chan_id;
      arg1 = 0;
    } in
    let closed = with_chan cr chan_id (λ (ch : Chan). record ch { opened = false }) in
    let noted = write_if cr.trace ev >>= λ trace. some (ok, record closed { trace = trace }) in
    if leb (length cr.channels) chan_id
    then some (fail 4, cr)
    else if leb chan_id chan_sys_dropped
    then some (fail 4, cr)
    else noted
