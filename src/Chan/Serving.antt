-- ===== src/Chan/Serving.antt =====
-- A channel of src/chan.c between its ring, the scheduler and the dead letters, and what the registry
-- holds of it.
use ggmk.Base.{
  ℕ, ◌≡◌, ◌≢◌, ◌∙◌, ap, some, List, get_elem?, get_elem?-modify_self, get_elem?-modify_ne,
}
use ggmk.Mpmc.Holds.{Holds}
use ggmk.Chan.Flow.{Flow, Limits}
use ggmk.Task.{Task}
use ggmk.Trace.Written.{IsTraced}
use ggmk.Sched.Rq.Push.{caps}
use ggmk.Sched.Enqueue.Route.{Holding}
use ggmk.Sched.Enqueue.Refine.{watermarks}
use ggmk.Chan.{Chan, ChanReg, no_ring, with_chan}

-- what an entry has that no task changes
abbrev pub fixed : Chan → Chan
fixed ch = record ch { ring = no_ring; emit_count = 0; drop_count = 0 }

-- entry `i` of the registry holds `xs` of at most `cap`, and has the rest of it from `p`
pub record Port (cr : ChanReg) (i : ℕ) (p : Chan) (cap : ℕ) (xs : List Task) (drops emits : ℕ)
    : Type 0 where
  pub ch : Chan
  pub at : get_elem? cr.channels i ≡ some ch
  pub same : fixed ch ≡ fixed p
  pub holds : Holds ch.ring xs
  pub sized : ch.ring.cap ≡ cap
  pub dropped : ch.drop_count ≡ drops
  pub emitted : ch.emit_count ≡ emits

-- Channel `c`, which has the fixed parts of `p`, holds `buf`, the channel of the dead letters, which has
-- those of `q`, the dead letters of the flow, and the scheduler the tasks of its model.
pub record Serving (cr : ChanReg) (c : ℕ) (p q : Chan) (limits : Limits) (buf : List Task)
    (f : Flow) : Type 0 where
  pub sched : Holding cr.sched f.model
  pub marked : watermarks cr.sched ≡ limits.marks
  pub lanes : caps cr.sched.rq ≡ limits.lanes
  pub seq : cr.sched.next_seq ≡ f.next_seq
  pub traced : IsTraced cr.trace
  pub port : Port cr c p limits.cap buf f.drops f.emits
  pub dead_drops : ℕ
  pub dead_emits : ℕ
  pub dead_port : Port cr 1 q limits.dead_cap f.dead dead_drops dead_emits
  pub apart : c ≢ 1

-- the entry changed
pub Port-modify_self :
    (cr : ChanReg) (i : ℕ) (p : Chan) (cap : ℕ) (xs xs' : List Task) (drops emits drops' emits' : ℕ)
    (g : Chan → Chan)
    → (port : Port cr i p cap xs drops emits) → fixed (g port.ch) ≡ fixed port.ch
    → Holds (g port.ch).ring xs'
    → (g port.ch).ring.cap ≡ port.ch.ring.cap
    → (g port.ch).drop_count ≡ drops'
    → (g port.ch).emit_count ≡ emits'
    → Port (with_chan cr i g) i p cap xs' drops' emits'
Port-modify_self cr i p cap xs xs' drops emits drops' emits' g port same holds sized dropped
      emitted =
    record {
      ch = g port.ch;
      at = get_elem?-modify_self cr.channels i g port.ch port.at;
      same = same ∙ port.same;
      holds = holds;
      sized = sized ∙ port.sized;
      dropped = dropped;
      emitted = emitted;
    }

-- another entry changed
pub Port-modify_ne :
    (cr : ChanReg) (i j : ℕ) (p : Chan) (cap : ℕ) (xs : List Task) (drops emits : ℕ)
    (g : Chan → Chan)
    → i ≢ j
    → Port cr j p cap xs drops emits
    → Port (with_chan cr i g) j p cap xs drops emits
Port-modify_ne cr i j p cap xs drops emits g ne port = record {
  ch = port.ch;
  at = get_elem?-modify_ne cr.channels g ne ∙ port.at;
  same = port.same;
  holds = port.holds;
  sized = port.sized;
  dropped = port.dropped;
  emitted = port.emitted;
}

-- the registry changed elsewhere
pub Port-elsewhere :
    (cr cr' : ChanReg) (i : ℕ) (p : Chan) (cap : ℕ) (xs : List Task) (drops emits : ℕ)
    → cr'.channels ≡ cr.channels
    → Port cr i p cap xs drops emits
    → Port cr' i p cap xs drops emits
Port-elsewhere cr cr' i p cap xs drops emits same port = record {
  ch = port.ch;
  at = ap (λ (chs : List Chan). get_elem? chs i) same ∙ port.at;
  same = port.same;
  holds = port.holds;
  sized = port.sized;
  dropped = port.dropped;
  emitted = port.emitted;
}
