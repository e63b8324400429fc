-- ===== src/Chan/Tests.antt =====
-- The theorems on the channels of src/chan.c, at concrete registries.
use ggmk.Base.{bit_or, ℕ, ◌≡◌, refl, some, none, List, [], ◌∷◌, arith, length-replicate, replicate}
use ggmk.Bits.{IsPow2}
use ggmk.Rc.{ok}
use ggmk.Mpmc.{Cell}
use ggmk.Mpmc.Push.{pushed, pushed-Holds}
use ggmk.Task.{Task}
use ggmk.Alloc.Unified.Tests.{small_alloc, no_headers}
use ggmk.Sched.Tests.{high, weak, sched, model, sched-Holding, ring, ring-Holds}
use ggmk.Sched.Rq.Push.{caps}
use ggmk.Sched.Enqueue.Refine.{watermarks}
use ggmk.Chan.{Chan, ChanReg, chan_p2p, no_ring, same_name, find}
use ggmk.Chan.Registry.{direct_chan, dropped_chan, open_chan, opened_as, reg_init, sub}
use ggmk.Chan.Drain.{drain}
use ggmk.Chan.Emit.{emit}
use ggmk.Chan.Flow.{Flow, Limits, settle_all, send}
use ggmk.Chan.Serving.{Serving}
use ggmk.Chan.Names.{open-find}
use ggmk.Chan.Ready.{subscriber, bound_chan, no_flow, connect_lem}
use ggmk.Chan.Subscriber.{drain_lem}
use ggmk.Chan.Send.{Emits, emit_lem}

abbrev cells : ℕ → ℕ → List (Cell Task)
cells n size = replicate n (record { seq = 0; value = high })

abbrev registry : ChanReg
registry = record {
  channels = direct_chan ∷ dropped_chan no_ring ∷ [];
  sched = sched;
  alloc = small_alloc;
  headers = no_headers;
  trace = none;
  metrics = none;
}

two_pow : IsPow2 2
two_pow = record { exponent = 1; power = refl }

open-find_example :
    (cr' : ChanReg) × (open_chan registry (97 ∷ []) chan_p2p 0 7 2 (cells 2) 5
      ≡ some (opened_as 2, cr'))
    × (find cr' (97 ∷ []) ≡ some 2)
unfolding find
open-find_example =
    open-find registry (97 ∷ []) chan_p2p 0 7 2 (cells 2) 5 (omega arith) refl tt two_pow
      (omega arith) (omega arith) refl

abbrev p : Chan
p = bound_chan (97 ∷ []) 0 7 2 (subscriber 9 (some 0))

abbrev q : Chan
q = dropped_chan no_ring

abbrev limits : Limits
limits = record { marks = watermarks sched; lanes = caps sched.rq; cap = 2; dead_cap = 2 }

connect_lem_example :
    (cr : ChanReg) × (opened : ChanReg) × (connected : ChanReg) × (reg_init sched small_alloc
        no_headers none none
        (cells 1024)
      ≡ some cr)
    × (open_chan cr (97 ∷ []) chan_p2p 0 7 2 (cells 2) 5 ≡ some (opened_as 2, opened))
    × (sub opened 2 9 (some 0) ≡ some (ok, connected))
    × Serving connected 2 p q (record limits { dead_cap = 1024 }) [] (no_flow model sched.next_seq)
unfolding same_name
connect_lem_example =
    connect_lem sched model sched-Holding small_alloc no_headers none tt none (cells 1024)
      (length-replicate {A = Cell Task} 1024 (record { seq = 0; value = high })) (97 ∷ []) 0 7 2 9 5
      (some 0) (cells 2) refl two_pow (omega arith) (omega arith) refl

-- a channel with one task buffered
abbrev busy : ChanReg
busy = record registry {
  channels = direct_chan ∷ dropped_chan ring ∷ record p { ring = pushed ring-Holds high } ∷ [];
}

abbrev flow : Flow
flow = no_flow model sched.next_seq

busy-Serving : Serving busy 2 p q limits (high ∷ []) flow
busy-Serving = record {
  sched = sched-Holding;
  marked = refl;
  lanes = refl;
  seq = refl;
  traced = tt;
  port = record {
    ch = _;
    at = refl;
    same = refl;
    holds = pushed-Holds ring-Holds high (omega arith);
    sized = refl;
    dropped = refl;
    emitted = refl;
  };
  dead_drops = 0;
  dead_emits = 0;
  dead_port = record {
    ch = _;
    at = refl;
    same = refl;
    holds = ring-Holds;
    sized = refl;
    dropped = refl;
    emitted = refl;
  };
  apart = λ e. absurd (omega arith);
}

drain_lem_example :
    (cr' : ChanReg) × (drain weak 2 busy 0 5 ≡ some (1, cr'))
    × Serving cr' 2 p q limits [] (settle_all limits (some 0) (high ∷ []) flow)
drain_lem_example =
    drain_lem weak tt 2 p q limits (subscriber 9 (some 0)) refl refl refl busy 0 (high ∷ []) flow 5
      refl busy-Serving

emit_lem_example :
    Emits weak tt 2 p q limits
      (subscriber 9 (some 0))
      refl
      refl
      refl
      refl
      (emit weak 2 busy high 5)
      (send limits
        (some 0)
        flow
        (high ∷ [])
        (record high { channel = 2; flags = bit_or high.flags 0x20 }))
emit_lem_example =
    emit_lem weak tt 2 p q limits (subscriber 9 (some 0)) refl refl refl refl busy (high ∷ []) flow
      high 5 refl refl (omega arith) busy-Serving
