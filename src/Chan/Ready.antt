-- ===== src/Chan/Ready.antt =====
-- A P2P channel of src/chan.c set up: the registry, the channel, and its subscriber.
use ggmk.Base.{
  ℕ, ◌*◌, ◌<◌, ◌≡◌, refl, ap, true, false, Option, some, none, List, [], ◌∷◌, arith, length,
  u32_mod, modify,
}
use ggmk.Bits.{IsPow2}
use ggmk.Rc.{ok}
use ggmk.Mpmc
use ggmk.Mpmc.{Cell, cell_stride}
use ggmk.Mpmc.Holds.{Holds}
use ggmk.Mpmc.Init.{init_valid}
use ggmk.Task.{Task}
use ggmk.Trace.{Trace}
use ggmk.Trace.Written.{IsTraced}
use ggmk.Metrics.{Metrics}
use ggmk.Alloc.Unified.{Alloc, Headers}
use ggmk.Sched.Rq.Push.{caps}
use ggmk.Sched.Enqueue.{Sched}
use ggmk.Sched.Enqueue.Spec.{Model}
use ggmk.Sched.Enqueue.Route.{Holding}
use ggmk.Sched.Enqueue.Refine.{watermarks}
use ggmk.Chan.{Sub, Chan, ChanReg, chan_p2p, same_name, find, no_ring}
use ggmk.Chan.Registry.{direct_chan, dropped_chan, reg_init, fresh_chan, open_chan, opened_as, sub}
use ggmk.Chan.Flow.{Flow}
use ggmk.Chan.Serving.{Serving}
use ggmk.Chan.Names.{open_chan_lem}

-- the subscriber that `gmk_chan_sub` enters
abbrev pub subscriber : ℕ → Option ℕ → Sub
subscriber module_id worker_id = record {
  module_id = module_id;
  worker_id = worker_id;
  active = true;
}

-- a P2P channel with its subscriber, without its ring
abbrev pub bound_chan : List ℕ → ℕ → ℕ → ℕ → Sub → Chan
bound_chan name guarantee msg_type slots s =
    record (fresh_chan 2 name chan_p2p guarantee msg_type slots no_ring) { subs = s ∷ [] }

-- nothing has been sent
abbrev pub no_flow : Model → ℕ → Flow
no_flow model next_seq = record {
  model = model;
  next_seq = next_seq;
  dead = [];
  drops = 0;
  emits = 0;
}

module _ (sched : Sched) (model : Model) (held : Holding sched model) (alloc : Alloc)
    (headers : Headers) (trace : Option Trace) (traced : IsTraced trace) (metrics : Option Metrics)
    (pages : ℕ → List (Cell Task)) (given : length (pages (1024 * cell_stride 48)) ≡ 1024) where
  reg_init_lem :
      (ring : Mpmc.Ring Task) × (reg_init sched alloc headers trace metrics pages
        ≡ some (record {
          channels = direct_chan ∷ dropped_chan ring ∷ [];
          sched = sched;
          alloc = alloc;
          headers = headers;
          trace = trace;
          metrics = metrics;
        }))
      × Holds ring []
      × (ring.cap ≡ 1024)
  unfolding reg_init
  reg_init_lem =
      let (ring, made, empty, cap) =
        init_valid 1024 48 pages (record { exponent = 10; power = refl }) (omega arith)
          (omega arith) (omega arith) given in
      (ring, rw (reg_init, made) refl, empty, cap)

  -- After `gmk_chan_reg_init`, `gmk_chan_open` and `gmk_chan_sub`, the channel is empty, and so are the
  -- dead letters.
  pub connect_lem :
      (name : List ℕ) (guarantee msg_type slots module_id now : ℕ) (worker_id : Option ℕ)
      (more : ℕ → List (Cell Task))
      → same_name 64 (dropped_chan no_ring).name name ≡ false
      → IsPow2 slots
      → 1 < slots
      → slots < u32_mod
      → length (more (slots * cell_stride 48)) ≡ slots
      → (cr : ChanReg) × (opened : ChanReg) × (connected : ChanReg) × (reg_init sched alloc headers
            trace metrics pages
          ≡ some cr)
        × (open_chan cr name chan_p2p guarantee msg_type slots more now
            ≡ some (opened_as 2, opened))
        × (sub opened 2 module_id worker_id ≡ some (ok, connected))
        × Serving connected 2
            (bound_chan name guarantee msg_type slots (subscriber module_id worker_id))
            (dropped_chan no_ring)
            (record {
              marks = watermarks sched;
              lanes = caps sched.rq;
              cap = slots;
              dead_cap = 1024;
            })
            []
            (no_flow model sched.next_seq)
  unfolding sub find modify
  connect_lem name guarantee msg_type slots module_id now worker_id more other pow2 two small
        supplied =
      let (dead, init, dead_empty, dead_cap) = reg_init_lem in
      let cr : ChanReg = record {
        channels = direct_chan ∷ dropped_chan dead ∷ [];
        sched = sched;
        alloc = alloc;
        headers = headers;
        trace = trace;
        metrics = metrics;
      } in
      let absent : find cr name ≡ none = rw (find, other) refl in
      let (ring, opened, done, added, same, traced', empty, cap) =
        open_chan_lem cr name chan_p2p guarantee msg_type slots more now (omega arith) absent traced
          pow2 two small supplied in
      let chans : List Chan =
        direct_chan
        ∷ dropped_chan dead
        ∷ record (fresh_chan 2 name chan_p2p guarantee msg_type slots ring) {
          subs = subscriber module_id worker_id ∷ [];
        }
        ∷ [] in
      (
        cr,
        opened,
        record opened { channels = chans },
        init,
        done,
        rw (sub, added) refl,
        record {
          sched = rw same held;
          marked = ap watermarks same;
          lanes = ap (λ (s : Sched). caps s.rq) same;
          seq = ap (λ (s : Sched). s.next_seq) same;
          traced = traced';
          port = record {
            ch = _;
            at = refl;
            same = refl;
            holds = empty;
            sized = cap;
            dropped = refl;
            emitted = refl;
          };
          dead_drops = 0;
          dead_emits = 0;
          dead_port = record {
            ch = _;
            at = refl;
            same = refl;
            holds = dead_empty;
            sized = dead_cap;
            dropped = refl;
            emitted = refl;
          };
          apart = λ e. absurd (omega arith);
        },
      )
