-- ===== src/Trace.antt =====
-- src/trace.c: a ring of trace events for each tenant, with a level and sampling. The time stamp of an
-- event is an argument; `none` is an access beyond the rings.
pub mod Logs
pub mod Calls
pub mod Written
pub mod Init
pub mod Tests
use Prim.Native.Nat.{bit_xor}
use ggmk.Base.{
  ℕ, zero, suc, ◌+◌, ◌-◌, ◌*◌, ◌/◌, ◌%◌, ◌^◌, ◌==◌, Bool, true, false, ◌||◌, ◌&&◌, Option, none,
  some, List, [], ◌∷◌, ◌++◌, ltb, leb, if◌then◌else◌, get_elem?, set, replicate, ◌>>=◌, u32_mod,
  map,
}
use ggmk.Rc.{Rc, minus_one, is_ok}
use ggmk.Spsc
use ggmk.Metrics.{add64}

-- `gmk_trace_ev_t`
pub record Event : Type 0 where
  pub tsc : ℕ
  pub ev_type : ℕ
  pub tenant : ℕ
  pub type : ℕ
  pub arg0 : ℕ
  pub arg1 : ℕ

-- `gmk_trace_t`
pub record Trace : Type 0 where
  pub rings : List (Spsc.Ring Event)
  pub level : ℕ
  pub sample_threshold : ℕ
  pub prng_state : ℕ
  pub n_tenants : ℕ
  pub total_events : ℕ
  pub dropped_events : ℕ

-- `prng_next`
unfoldable pub prng_next : ℕ → ℕ
prng_next state =
    let x = bit_xor state (state * 2 ^ 13 % u32_mod) in
    let y = bit_xor x (x / 2 ^ 17) in bit_xor y (y * 2 ^ 5 % u32_mod)

abbrev pub trace_error : ℕ
trace_error = 1

abbrev pub trace_warn : ℕ
trace_warn = 2

abbrev pub trace_info : ℕ
trace_info = 3

abbrev pub trace_all : ℕ
trace_all = 4

abbrev pub uint32_max : ℕ
uint32_max = 0xffff_ffff

-- a case label among those of a `switch`
pub one_of : ℕ → List ℕ → Bool
one_of x [] = false
one_of x (y ∷ ys) = x == y || one_of x ys

-- the events of each level
abbrev pub error_events : List ℕ
error_events = 0x03 ∷ 0x06 ∷ 0x30 ∷ 0x31 ∷ 0x32 ∷ []

abbrev pub warn_events : List ℕ
warn_events = 0x11 ∷ 0x12 ∷ 0x20 ∷ []

abbrev pub info_events : List ℕ
info_events = 0x01 ∷ 0x02 ∷ 0x04 ∷ 0x05 ∷ 0x10 ∷ 0x13 ∷ 0x14 ∷ 0x15 ∷ 0x21 ∷ 0x22 ∷ 0x40 ∷ 0x41 ∷ []

-- `ev_level`
unfoldable pub ev_level : ℕ → ℕ
unfolding one_of
ev_level ev_type =
    if one_of ev_type error_events
    then trace_error
    else if one_of ev_type warn_events
    then trace_warn
    else if one_of ev_type info_events
    then trace_info
    else trace_all

-- a ring of zeroed memory
abbrev pub no_ring : Spsc.Ring Event
no_ring = record { head = 0; tail = 0; cap = 0; mask = 0; elem_size = 0; buf = [] }

-- The loop of `gmk_trace_init` from tenant `i` on, with `n` to go.
pub init_rings : ℕ → ℕ → (ℕ → ℕ → List Event) → Option (List (Spsc.Ring Event))
init_rings zero i pages = some []
init_rings (suc n) i pages =
    let rest = init_rings n (suc i) pages in
    Spsc.init 4096 32 (pages i) >>= λ r. (rest >>= λ rings. some (r ∷ rings))

-- `gmk_trace_init`: the trace, or `none` for -1, with the rings so far destroyed.
unfoldable pub init : ℕ → (ℕ → ℕ → List Event) → Option Trace
unfolding init_rings
init n_tenants pages =
    let set_up = init_rings n_tenants 0 pages >>= λ rings. some (record {
      rings = rings ++ replicate (16 - n_tenants) no_ring;
      level = trace_warn;
      sample_threshold = uint32_max;
      prng_state = 0xdead_beef;
      n_tenants = n_tenants;
      total_events = 0;
      dropped_events = 0;
    }) in
    if n_tenants == 0 || ltb 16 n_tenants then none else set_up

-- the counters after a push
abbrev pub counted : Bool → Trace → Trace
counted true t = record t { total_events = add64 t.total_events 1 }
counted false t = record t { dropped_events = add64 t.dropped_events 1 }

-- `trace_emit`
unfoldable pub trace_emit : Trace → Event → Option Trace
trace_emit t ev =
    let pushed = get_elem? t.rings ev.tenant >>= λ ring.
    (let (rc, ring') = Spsc.push ring ev in
      some (counted (is_ok rc) (record t { rings = set t.rings ev.tenant ring' }))) in
    if leb t.n_tenants ev.tenant then some t else pushed

-- whether `gmk_trace_write` draws a number
abbrev pub sampled : Trace → Bool
sampled t = t.level == trace_all && ltb t.sample_threshold uint32_max

-- `gmk_trace_write`
unfoldable pub write : Trace → Event → Option Trace
unfolding ev_level trace_emit prng_next
write t ev =
    let drawn = record t { prng_state = prng_next t.prng_state } in
    let sampling =
      if ltb t.sample_threshold drawn.prng_state then some drawn else trace_emit drawn ev in
    if ltb t.level (ev_level ev.ev_type)
    then some t
    else if sampled t
    then sampling
    else trace_emit t ev

-- `gmk_trace_write_force`
unfoldable pub write_force : Trace → Event → Option Trace
unfolding trace_emit
write_force t ev = trace_emit t ev

-- `gmk_trace_read`
unfoldable pub read : Trace → ℕ → Option (Rc × Option Event × Trace)
read t tenant =
    let popped = get_elem? t.rings tenant >>= λ ring.
    (let (rc, ev, ring') = Spsc.pop ring in
      some (rc, ev, record t { rings = set t.rings tenant ring' })) in
    if leb t.n_tenants tenant then some (minus_one, none, t) else popped

-- `gmk_trace_set_level`
unfoldable pub set_level : Trace → ℕ → Trace
set_level t level = record t { level = level }

-- A rate, by the branches of `gmk_trace_set_sample_rate`: the last holds the product with
-- `UINT32_MAX`, cut to a whole number.
pub data Rate : Type 0 where
  zero_or_less one_or_more : Rate
  between : ℕ → Rate

-- `gmk_trace_set_sample_rate`
unfoldable pub set_sample_rate : Trace → Rate → Trace
set_sample_rate t zero_or_less = record t { sample_threshold = 0 }
set_sample_rate t one_or_more = record t { sample_threshold = uint32_max }
set_sample_rate t (between product) = record t { sample_threshold = product }

-- The loop of `gmk_trace_destroy`, with `n` rings to go.
pub destroy_rings : ℕ → List (Spsc.Ring Event) → List (Spsc.Ring Event)
destroy_rings zero rings = rings
destroy_rings (suc n) [] = []
destroy_rings (suc n) (r ∷ rings) = (Spsc.destroy r).0 ∷ destroy_rings n rings

-- `gmk_trace_destroy`
unfoldable pub destroy : Trace → Trace
unfolding destroy_rings
destroy t = record t { rings = destroy_rings t.n_tenants t.rings }

-- `gmk_trace_write`, if there is a trace
unfoldable pub write_if : Option Trace → Event → Option (Option Trace)
unfolding write
write_if none ev = some none
write_if (some t) ev = write t ev >>= λ t'. some (some t')
