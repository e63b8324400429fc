-- ===== src/Chan/Changes.antt =====
-- Parts of src/chan.c's registry changed one at a time, and what the registry holds then.
use ggmk.Base.{ℕ, ◌%◌, ◌^◌, ◌≡◌, ◌∙◌, refl, ap, sym, some, List, add32}
use ggmk.Mpmc
use ggmk.Mpmc.Holds.{Holds}
use ggmk.Task.{Task}
use ggmk.Trace.{Event}
use ggmk.Trace.Written.{write_if-IsTraced}
use ggmk.Sched.Rq.Push.{caps}
use ggmk.Sched.Enqueue.{Sched}
use ggmk.Sched.Enqueue.Spec.{Model}
use ggmk.Sched.Enqueue.Route.{Holding}
use ggmk.Sched.Enqueue.Refine.{watermarks}
use ggmk.Chan.{Chan, ChanReg, with_chan}
use ggmk.Chan.Drain.{noted, metered, with_ring}
use ggmk.Chan.Flow.{Flow, Limits}
use ggmk.Chan.Serving.{Serving, Port-modify_self, Port-modify_ne, Port-elsewhere, fixed}

module _ (c : ℕ) (p q : Chan) (limits : Limits) where
  abbrev Serves : ChanReg → List Task → Flow → Type 0
  Serves cr buf f = Serving cr c p q limits buf f

  -- the scheduler replaced
  pub resched :
      (cr : ChanReg) (buf : List Task) (f : Flow) (s : Sched) (model : Model)
      → Serves cr buf f
      → Holding s model
      → (watermarks s ≡ watermarks cr.sched)
        × (caps s.rq ≡ caps cr.sched.rq)
        × (s.next_seq ≡ add32 cr.sched.next_seq 1)
      → Serves
          (record cr { sched = s })
          buf
          (record f { model = model; next_seq = add32 f.next_seq 1 })
  resched cr buf f s model v held (marks, cs, seq) = record {
    sched = held;
    marked = marks ∙ v.marked;
    lanes = cs ∙ v.lanes;
    seq = seq ∙ ap (λ n. add32 n 1) v.seq;
    traced = v.traced;
    port =
        Port-elsewhere cr (record cr { sched = s }) c p limits.cap buf f.drops f.emits refl v.port;
    dead_drops = v.dead_drops;
    dead_emits = v.dead_emits;
    dead_port =
        Port-elsewhere cr (record cr { sched = s }) 1 q limits.dead_cap f.dead v.dead_drops
          v.dead_emits refl v.dead_port;
    apart = v.apart;
  }

  -- the channel changed
  pub rework :
      (cr : ChanReg) (buf buf' : List Task) (f : Flow) (g : Chan → Chan) (drops emits : ℕ)
      → (v : Serves cr buf f) → fixed (g v.port.ch) ≡ fixed v.port.ch
      → Holds (g v.port.ch).ring buf'
      → (g v.port.ch).ring.cap ≡ v.port.ch.ring.cap
      → (g v.port.ch).drop_count ≡ drops
      → (g v.port.ch).emit_count ≡ emits
      → Serves (with_chan cr c g) buf' (record f { drops = drops; emits = emits })
  rework cr buf buf' f g drops emits v same holds sized dropped emitted = record {
    sched = v.sched;
    marked = v.marked;
    lanes = v.lanes;
    seq = v.seq;
    traced = v.traced;
    port =
        Port-modify_self cr c p limits.cap buf buf' f.drops f.emits drops emits g v.port same holds
          sized dropped emitted;
    dead_drops = v.dead_drops;
    dead_emits = v.dead_emits;
    dead_port =
        Port-modify_ne cr c 1 q limits.dead_cap f.dead v.dead_drops v.dead_emits g v.apart
          v.dead_port;
    apart = v.apart;
  }

  -- the channel of the dead letters with another ring
  pub rering :
      (cr : ChanReg) (buf : List Task) (f : Flow) (ring : Mpmc.Ring Task) (dead : List Task)
      → (v : Serves cr buf f) → Holds ring dead
      → ring.cap ≡ v.dead_port.ch.ring.cap
      → Serves (with_ring cr 1 ring) buf (record f { dead = dead })
  rering cr buf f ring dead v holds sized = record {
    sched = v.sched;
    marked = v.marked;
    lanes = v.lanes;
    seq = v.seq;
    traced = v.traced;
    port =
        Port-modify_ne cr 1 c p limits.cap buf f.drops f.emits
          (λ (ch : Chan). record ch { ring = ring }) (λ e. v.apart (sym e)) v.port;
    dead_drops = v.dead_drops;
    dead_emits = v.dead_emits;
    dead_port =
        Port-modify_self cr 1 q limits.dead_cap f.dead dead v.dead_drops v.dead_emits v.dead_drops
          v.dead_emits (λ (ch : Chan). record ch { ring = ring }) v.dead_port refl holds sized
          v.dead_port.dropped v.dead_port.emitted;
    apart = v.apart;
  }

  -- an event of a task
  pub noted_lem :
      (cr : ChanReg) (buf : List Task) (f : Flow) (now ev_type tenant type arg0 arg1 : ℕ)
      → Serves cr buf f
      → (cr' : ChanReg) × (noted cr now ev_type tenant type arg0 arg1 ≡ some cr') × Serves cr' buf f
  unfolding noted
  noted_lem cr buf f now ev_type tenant type arg0 arg1 v =
      let ev : Event = record {
        tsc = now;
        ev_type = ev_type;
        tenant = tenant;
        type = type % 2 ^ 16;
        arg0 = arg0;
        arg1 = arg1;
      } in
      let (trace, done, traced) = write_if-IsTraced cr.trace ev v.traced in
      rw done (
        _,
        refl,
        record {
          sched = v.sched;
          marked = v.marked;
          lanes = v.lanes;
          seq = v.seq;
          traced = traced;
          port =
              Port-elsewhere cr (record cr { trace = trace }) c p limits.cap buf f.drops f.emits
                refl v.port;
          dead_drops = v.dead_drops;
          dead_emits = v.dead_emits;
          dead_port =
              Port-elsewhere cr (record cr { trace = trace }) 1 q limits.dead_cap f.dead
                v.dead_drops v.dead_emits refl v.dead_port;
          apart = v.apart;
        },
      )

  -- a metric
  pub metered_lem :
      (cr : ChanReg) (buf : List Task) (f : Flow) (tenant metric_id : ℕ)
      → Serves cr buf f
      → Serves (metered cr tenant metric_id) buf f
  metered_lem cr buf f tenant metric_id v = record {
    sched = v.sched;
    marked = v.marked;
    lanes = v.lanes;
    seq = v.seq;
    traced = v.traced;
    port =
        Port-elsewhere cr (metered cr tenant metric_id) c p limits.cap buf f.drops f.emits refl
          v.port;
    dead_drops = v.dead_drops;
    dead_emits = v.dead_emits;
    dead_port =
        Port-elsewhere cr (metered cr tenant metric_id) 1 q limits.dead_cap f.dead v.dead_drops
          v.dead_emits refl v.dead_port;
    apart = v.apart;
  }
