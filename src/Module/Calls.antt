-- ===== src/Module/Calls.antt =====
-- When `gmk_module_dispatch` of src/module.c calls a handler.
use ggmk.Base.{
  ℕ, ◌%◌, ◌^◌, ◌≡◌, refl, Bool, true, false, Option, none, some, arith, leb, if◌then◌else◌, get_or,
  dec_lt, lt→leb, le→leb,
}
use ggmk.Rc.{Rc, fail}
use ggmk.Trace.{Trace, Event}
use ggmk.Module.{World, note, dispatch, dispatch_to, is_poisoned, to_uint32}
use ggmk.Module.Table.{entry}
use ggmk.Trace.Written.{IsTraced, write_if-IsTraced}

module _ {F S : Type 0} where
  -- `w'` is `w` but for what the trace's rings hold
  abbrev pub Noted : World F S → World F S → Type 0
  Noted w w' =
      (trace : Option Trace) × (w' ≡ record w { mr = record w.mr { trace = trace } })
      × IsTraced trace

  note-Noted :
      (w : World F S) (now ev_type type arg0 arg1 : ℕ)
      → IsTraced w.mr.trace
      → (w' : World F S) × (note w now ev_type type arg0 arg1 ≡ some w')
        × Noted w w'
        × IsTraced w'.mr.trace
  unfolding note
  note-Noted w now ev_type type arg0 arg1 traced =
      let ev : Event = record {
        tsc = now;
        ev_type = ev_type;
        tenant = w.task.tenant;
        type = type % 2 ^ 16;
        arg0 = arg0;
        arg1 = arg1;
      } in
      let (trace, done, traced') = write_if-IsTraced w.mr.trace ev traced in
      rw (note, done) (_, refl, (trace, refl, traced'), traced')

  -- the handler that the table has for the task
  abbrev pub handler_of : World F S → Option F
  handler_of w = if leb 256 w.task.type then none else entry w.mr w.task.type

  module _ (call : F → World F S → Rc × World F S) where
    -- How a dispatch ends: without a handler with -5 and no change; for a poisoned type with -8 and no
    -- call; else with the result of one call of the handler. Before and after the call only the trace
    -- changes.
    abbrev pub Outcome : Option F → Bool → World F S → Option (Rc × World F S) → Type 0
    Outcome none poisoned w result = result ≡ some (fail 5, w)
    Outcome (some f) true w result = (w' : World F S) × (result ≡ some (fail 8, w')) × Noted w w'
    Outcome (some f) false w result =
        (w₁ : World F S) × Noted w w₁
        × ((w₂ : World F S) × (result ≡ some ((call f w₁).0, w₂)) × Noted (call f w₁).1 w₂)

    module _
        (keeps : (f : F) (w : World F S) → IsTraced w.mr.trace → IsTraced (call f w).1.mr.trace)
        (now later : ℕ) where
      dispatch_to-Outcome :
          (w : World F S) (found : Option F) (poisoned : Bool)
          → get_or w.mr.poisoned w.task.type false ≡ poisoned
          → IsTraced w.mr.trace
          → Outcome found poisoned w (dispatch_to call found w now later)
      unfolding dispatch_to
      dispatch_to-Outcome w none poisoned e traced = refl
      dispatch_to-Outcome w (some f) true e traced =
          let (w', done, noted, traced') = note-Noted w now 0x32 w.task.type w.task.type 0 traced in
          rw (dispatch_to, e, done) (w', refl, noted)
      dispatch_to-Outcome w (some f) false e traced =
          let (w₁, done, noted, traced₁) = note-Noted w now 0x01 w.task.type w.task.seq 0 traced in
          let (rc, end) = call f w₁ in
          let (w₂, done₂, noted₂, traced₂) =
            note-Noted end later 0x02 w.task.type end.task.seq (to_uint32 rc)
              (keeps f w₁ traced₁) in
          rw (dispatch_to, e, done, done₂) (w₁, noted, (w₂, refl, noted₂))

      -- `gmk_module_dispatch` calls the handler that the table has for the type of the task once, if the
      -- type is not poisoned, and returns its result; otherwise it calls none and returns -8, or -5 if
      -- there is no handler. It changes nothing but the trace around the call, and returns if the
      -- handlers do and keep the trace's rings in order.
      pub dispatch_lem :
          (w : World F S)
          → IsTraced w.mr.trace
          → Outcome (handler_of w) (is_poisoned w.mr w.task.type) w (dispatch call w now later)
      unfolding dispatch is_poisoned
      dispatch_lem w traced = elim (dec_lt w.task.type 256) [
        | no beyond ↦ rw (le→leb 256 w.task.type (omega arith)) refl
        | yes lt ↦ rw (lt→leb w.task.type 256 lt) (
            dispatch_to-Outcome w (entry w.mr w.task.type) (get_or w.mr.poisoned w.task.type false)
              refl traced)
      ]
