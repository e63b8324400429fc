-- ===== src/Trace/Calls.antt =====
-- `gmk_trace_write` and `gmk_trace_read` of src/trace.c, on the events that the rings hold.
use ggmk.Base.{
  ℕ, ◌<◌, ◌≡◌, ◌∙◌, refl, Bool, not, ◌&&◌, ◌||◌, some, List, [], ◌∷◌, arith, leb, if◌then◌else◌,
  dec_lt, lt→ltb, le→ltb, lt→leb, le→leb, Bool-cases, inl, inr,
}
use ggmk.Spsc
use ggmk.Spsc.Holds.{Holds}
use ggmk.Spsc.Refine.{pop-Holds, pop-empty, cap-pop}
use ggmk.Trace.{Event, Trace, write, read, ev_level, sampled, prng_next}
use ggmk.Trace.Logs.{
  Logs, IsLogged, with_log, record_event, read_reply, rest_of, Ends, stored-IsLogged, with_log_ne,
  with_log_self, trace_emit_lem,
}

pop_lem :
    (ring : Spsc.Ring Event) (xs : List Event)
    → Holds ring xs
    → (Spsc.pop ring ≡ ((read_reply xs).0, (read_reply xs).1, (Spsc.pop ring).2))
      × Holds (Spsc.pop ring).2 (rest_of xs)
pop_lem ring [] h = rw (pop-empty h) (refl, h)
pop_lem ring (x ∷ xs) h =
    let (done, first, h') = pop-Holds h in ((λ i. (done i, first i, (Spsc.pop ring).2)), h')

-- the level check and the sampling of `gmk_trace_write`
abbrev pub passes : Trace → Event → Bool
passes t ev =
    leb (ev_level ev.ev_type) t.level
    && (not (sampled t) || leb (prng_next t.prng_state) t.sample_threshold)

module _ (t : Trace) (logs : Logs) (held : IsLogged t logs) where
  -- `gmk_trace_write` records or drops an event that passes the level check and the sampling, and
  -- else changes no log and no count; level and tenants stay, and every call returns.
  pub trace_write_lem :
      (ev : Event)
      → Ends
          (write t ev)
          t
          (if passes t ev then record_event logs t ev else (logs, t.total_events, t.dropped_events))
  unfolding write record_event
  trace_write_lem ev = elim (dec_lt t.level (ev_level ev.ev_type)) [
    | yes above ↦
        rw
          (
            write,
            lt→ltb t.level (ev_level ev.ev_type) above,
            lt→leb t.level (ev_level ev.ev_type) above,
          )
          (t, refl, held, refl, refl, refl, refl)
    | no below ↦ elim (Bool-cases (sampled t)) [
      | inr off ↦
          rw
            (
              write,
              le→ltb t.level (ev_level ev.ev_type) (omega arith),
              le→leb (ev_level ev.ev_type) t.level (omega arith),
              off,
            )
            (trace_emit_lem t logs held ev)
      | inl on ↦ elim (dec_lt t.sample_threshold (prng_next t.prng_state)) [
        | yes skip ↦
            rw
              (
                write,
                le→ltb t.level (ev_level ev.ev_type) (omega arith),
                le→leb (ev_level ev.ev_type) t.level (omega arith),
                on,
                lt→ltb t.sample_threshold (prng_next t.prng_state) skip,
                lt→leb t.sample_threshold (prng_next t.prng_state) skip,
              )
              (_, refl, held, refl, refl, refl, refl)
        | no keep ↦
            rw
              (
                write,
                le→ltb t.level (ev_level ev.ev_type) (omega arith),
                le→leb (ev_level ev.ev_type) t.level (omega arith),
                on,
                le→ltb t.sample_threshold (prng_next t.prng_state) (omega arith),
                le→leb (prng_next t.prng_state) t.sample_threshold (omega arith),
              )
              (trace_emit_lem (record t { prng_state = prng_next t.prng_state }) logs held ev)
      ]
    ]
  ]

  -- `gmk_trace_read` takes the oldest event of the tenant, and returns -1 if it has none; the events of
  -- the other tenants stay, and every call for a tenant that there is returns.
  pub trace_read_lem :
      (tenant : ℕ)
      → tenant < t.n_tenants
      → (t' : Trace) × (read t tenant
          ≡ some ((read_reply (logs tenant)).0, (read_reply (logs tenant)).1, t'))
        × IsLogged t' (with_log logs tenant (rest_of (logs tenant)))
  unfolding read
  trace_read_lem tenant lt =
      let (ring, at, h, size) = held tenant lt in
      let (done, h') = pop_lem ring (logs tenant) h in
      rw (read, lt→leb tenant t.n_tenants lt, at, done)
        (
          _,
          refl,
          stored-IsLogged t logs held (with_log logs tenant (rest_of (logs tenant))) t.total_events
              t.dropped_events tenant ring (Spsc.pop ring).2 at
              (rw (with_log_self t logs held tenant (rest_of (logs tenant))) h')
              (cap-pop ring ∙ size) (with_log_ne t logs held tenant (rest_of (logs tenant))),
        )
