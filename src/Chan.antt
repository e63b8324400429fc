-- ===== src/Chan.antt =====
-- src/chan.c: the registry of channels, and the search for a channel by its name. `weak` says
-- which compare-and-swaps fail spuriously, as for the rings; the outer `none` of a call is one that does
-- not return or reads beyond an array. All events of a call bear one time stamp, `now`. The locks are
-- held where the subscribers are read and changed, and a null registry, name or task is not modelled.
pub mod Registry
pub mod Drain
pub mod Emit
pub mod Flow
pub mod Serving
pub mod Changes
pub mod Deliver
pub mod Subscriber
pub mod Send
pub mod Names
pub mod Ready
mod Tests
use ggmk.Base.{
  ℕ, zero, suc, ◌+◌, ◌==◌, ◌&&◌, ◌||◌, Bool, true, false, not, Option, none, some, List, [], ◌∷◌,
  ◌++◌, ltb, leb, if◌then◌else◌, length, get_elem?, take, replicate, modify, map, ◌>>=◌,
}
use ggmk.Rc.{Rc, ok, fail}
use ggmk.Mpmc
use ggmk.Platform.{is_power_of_two, next_pow2}
use ggmk.Task.{Task}
use ggmk.Trace.{Trace, Event, write_if}
use ggmk.Metrics.{Metrics}
use ggmk.Alloc.Unified.{Alloc, Headers}
use ggmk.Sched.Enqueue.{Sched}

-- `gmk_chan_sub_t`; a negative worker is `none`.
pub record Sub : Type 0 where
  pub module_id : ℕ
  pub worker_id : Option ℕ
  pub active : Bool

-- `gmk_chan_entry_t`. The name is its bytes before the first 0, and `subs` the first `n_subs` entries of
-- the array.
pub record Chan : Type 0 where
  pub name : List ℕ
  pub id : ℕ
  pub mode : ℕ
  pub guarantee : ℕ
  pub msg_type : ℕ
  pub ring : Mpmc.Ring Task
  pub ring_cap : ℕ
  pub subs : List Sub
  pub opened : Bool
  pub emit_count : ℕ
  pub drop_count : ℕ

-- `gmk_chan_reg_t`, with what its pointers reach: the first `n_channels` entries, the scheduler, the
-- allocator with the headers of its payloads, the trace and the metrics.
pub record ChanReg : Type 0 where
  pub channels : List Chan
  pub sched : Sched
  pub alloc : Alloc
  pub headers : Headers
  pub trace : Option Trace
  pub metrics : Option Metrics

-- `GMK_CHAN_P2P`, `GMK_CHAN_FANOUT`, `GMK_CHAN_LOSSY`
abbrev pub chan_p2p : ℕ
chan_p2p = 1

abbrev pub chan_fanout : ℕ
chan_fanout = 2

abbrev pub chan_lossy : ℕ
chan_lossy = 0

-- `GMK_MAX_CHANNELS`, `GMK_MAX_CHAN_SUBS`, `GMK_MAX_CHAN_NAME`, `GMK_CHAN_DEFAULT_SLOTS`
abbrev pub max_channels : ℕ
max_channels = 256

abbrev pub max_chan_subs : ℕ
max_chan_subs = 32

abbrev pub max_chan_name : ℕ
max_chan_name = 64

abbrev pub chan_default_slots : ℕ
chan_default_slots = 1024

-- the id of "sys.dropped"
abbrev pub chan_sys_dropped : ℕ
chan_sys_dropped = 1

-- The test `strncmp(a, b, n) == 0` of two names.
unfoldable pub same_name : ℕ → List ℕ → List ℕ → Bool
same_name zero a b = true
same_name (suc n) [] [] = true
same_name (suc n) [] (y ∷ b) = false
same_name (suc n) (x ∷ a) [] = false
same_name (suc n) (x ∷ a) (y ∷ b) = x == y && same_name n a b

-- what `strncpy` of a name keeps of it, with the 0 behind
abbrev pub kept_name : List ℕ → List ℕ
kept_name name = take 63 name

-- The loop of `gmk_chan_find` and of the test for a duplicate, from channel `i` on: the first open
-- channel of the name.
unfoldable pub find_from : List Chan → List ℕ → ℕ → Option ℕ
unfolding same_name
find_from [] name i = none
find_from (ch ∷ chs) name i =
    let rest = find_from chs name (suc i) in
    if ch.opened && same_name max_chan_name ch.name name then some i else rest

-- `gmk_chan_find`, with `none` for -1
unfoldable pub find : ChanReg → List ℕ → Option ℕ
unfolding find_from
find cr name = find_from cr.channels name 0

-- a ring that is all zero
abbrev pub no_ring : Mpmc.Ring Task
no_ring = record { head = 0; tail = 0; cap = 0; mask = 0; elem_size = 0; cell_size = 0; buf = [] }

-- a channel changed
abbrev pub with_chan : ChanReg → ℕ → (Chan → Chan) → ChanReg
with_chan cr chan_id f = record cr { channels = modify cr.channels chan_id f }
