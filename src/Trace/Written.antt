-- ===== src/Trace/Written.antt =====
-- A call of `gmk_trace_write` of src/trace.c where there may be no trace.
use ggmk.Base.{◌≡◌, refl, Option, none, some}
use ggmk.Trace.{Event, Trace, write_if}
use ggmk.Trace.Logs.{Logs, IsLogged}
use ggmk.Trace.Calls.{trace_write_lem}

-- the rings of the trace, if there is one, hold events
abbrev pub IsTraced : Option Trace → Type 0
IsTraced none = Unit
IsTraced (some t) = (logs : Logs) × IsLogged t logs

pub write_if-IsTraced :
    (trace : Option Trace) (ev : Event)
    → IsTraced trace
    → (trace' : Option Trace) × (write_if trace ev ≡ some trace') × IsTraced trace'
unfolding write_if
write_if-IsTraced none ev traced = (none, refl, tt)
write_if-IsTraced (some t) ev (logs, held) =
    let (t', done, held', total, dropped, level, tenants) = trace_write_lem t logs held ev in
    rw done (some t', refl, (_, held'))
