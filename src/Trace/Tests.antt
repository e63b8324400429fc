-- ===== src/Trace/Tests.antt =====
-- Runs of src/trace.c, and its theorems at concrete traces.
use ggmk.Base.{
  ℕ, zero, suc, ◌≡◌, refl, some, none, List, [], ◌∷◌, arith, replicate, length-replicate,
}
use ggmk.Rc.{minus_one}
use ggmk.Spsc
use ggmk.Spsc.Holds.{Holds}
use ggmk.Trace.{Event, Trace, init, write, read, ev_level}
use ggmk.Trace.Logs.{Ends, IsLogged, record_event, with_log}
use ggmk.Trace.Calls.{trace_write_lem, trace_read_lem}
use ggmk.Trace.Init.{trace_init_lem}

abbrev failure : Event
failure = record { tsc = 5; ev_type = 3; tenant = 1; type = 7; arg0 = 0; arg1 = 0 }

abbrev pages : ℕ → ℕ → List Event
pages i size = replicate 4096 failure

trace_set_up :
    (t : Trace) × (init 2 pages ≡ some t)
    × IsLogged t (λ i. [])
    × (t.n_tenants ≡ 2)
    × (t.level ≡ 2)
    × (t.total_events ≡ 0)
    × (t.dropped_events ≡ 0)
trace_set_up =
    trace_init_lem 2 pages (omega arith) (omega arith) (λ i lt. length-replicate 4096 failure)

abbrev pub empty_ring : Spsc.Ring Event
empty_ring = record {
  head = 0;
  tail = 0;
  cap = 4096;
  mask = 4095;
  elem_size = 32;
  buf = replicate 4096 failure;
}

abbrev pub two_tenants : Trace
two_tenants = record {
  rings = empty_ring ∷ empty_ring ∷ [];
  level = 2;
  sample_threshold = 0xffff_ffff;
  prng_state = 0xdead_beef;
  n_tenants = 2;
  total_events = 0;
  dropped_events = 0;
}

empty_ring-Holds : Holds empty_ring []
empty_ring-Holds = record {
  pow2 = record { exponent = 12; power = refl };
  small = omega arith;
  masked = refl;
  slots = length-replicate 4096 failure;
  head_word = omega arith;
  counted = refl;
  fits = omega arith;
  stored = λ i lt. elim lt [ ];
}

pub two_tenants-IsLogged : IsLogged two_tenants (λ i. [])
two_tenants-IsLogged zero lt = (empty_ring, refl, empty_ring-Holds, refl)
two_tenants-IsLogged (suc zero) lt = (empty_ring, refl, empty_ring-Holds, refl)
two_tenants-IsLogged (suc (suc i)) lt = absurd (omega arith)

-- A failure has level 1, so it is recorded.
trace_write_lem_sample :
    Ends (write two_tenants failure) two_tenants (with_log (λ i. []) 1 (failure ∷ []), 1, 0)
unfolding ev_level record_event
trace_write_lem_sample = trace_write_lem two_tenants (λ i. []) two_tenants-IsLogged failure

trace_read_lem_sample :
    (t' : Trace) × (read two_tenants 1 ≡ some (minus_one, none, t'))
    × IsLogged t' (with_log (λ i. []) 1 [])
trace_read_lem_sample = trace_read_lem two_tenants (λ i. []) two_tenants-IsLogged 1 (omega arith)
