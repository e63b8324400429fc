-- ===== src/Trace/Logs.antt =====
-- What the rings of src/trace.c hold: for each tenant its events, oldest first.
use ggmk.Base.{
  ℕ, zero, suc, ◌==◌, ◌<◌, ◌≡◌, ◌≢◌, ◌∙◌, refl, ap, sym, Option, some, none, List, [], ◌∷◌, ◌++◌,
  arith, ltb, if◌then◌else◌, length, get_elem?, set, get_elem?-set_ne, ℕ_discrete, dec_lt, lt→ltb,
  le→ltb, lt→leb, le→leb,
}
use mathlib.Core.Path.{subst}
use ggmk.Rc.{Rc, ok, minus_one}
use ggmk.Spsc
use ggmk.Spsc.Holds.{Holds}
use ggmk.Spsc.Refine.{push-Holds, push-full, cap-push}
use ggmk.Metrics.{add64}
use ggmk.Trace.{Event, Trace, trace_emit}

-- the events that the rings hold, for each tenant
abbrev pub Logs : Type 0
Logs = ℕ → List Event

-- The ring of each tenant has 4096 slots and holds its events.
abbrev pub IsLogged : Trace → Logs → Type 0
IsLogged t logs =
    (i : ℕ)
    → i < t.n_tenants
    → (ring : Spsc.Ring Event) × (get_elem? t.rings i ≡ some ring)
      × Holds ring (logs i)
      × (ring.cap ≡ 4096)

-- the events of one tenant replaced
abbrev pub with_log : Logs → ℕ → List Event → Logs
with_log logs tenant xs = λ i. if tenant == i then xs else logs i

-- The event is recorded and counted, or counted as dropped if the tenant's ring is full; one of a
-- tenant that there is not is ignored.
unfoldable pub record_event : Logs → Trace → Event → Logs × ℕ × ℕ
record_event logs t ev =
    if ltb ev.tenant t.n_tenants
    then (if ltb (length (logs ev.tenant)) 4096
        then (
          with_log logs ev.tenant (logs ev.tenant ++ ev ∷ []),
          add64 t.total_events 1,
          t.dropped_events,
        )
        else (logs, t.total_events, add64 t.dropped_events 1))
    else (logs, t.total_events, t.dropped_events)

-- what a read returns of a tenant's events
abbrev pub read_reply : List Event → Rc × Option Event
read_reply [] = (minus_one, none)
read_reply (x ∷ xs) = (ok, some x)

abbrev pub rest_of : List Event → List Event
rest_of [] = []
rest_of (x ∷ xs) = xs

-- how a call ends that may record an event
abbrev pub Ends : Option Trace → Trace → Logs × ℕ × ℕ → Type 0
Ends result t (logs, total, dropped) =
    (t' : Trace) × (result ≡ some t')
    × IsLogged t' logs
    × (t'.total_events ≡ total)
    × (t'.dropped_events ≡ dropped)
    × (t'.level ≡ t.level)
    × (t'.n_tenants ≡ t.n_tenants)

get_elem?-set_at {ℓ} :
    {A : Type ℓ} (xs : List A) (i : ℕ) (v a : A)
    → get_elem? xs i ≡ some a
    → get_elem? (set xs i v) i ≡ some v
get_elem?-set_at [] i v a e = absurd (ground arith)
get_elem?-set_at (x ∷ xs) zero v a e = refl
get_elem?-set_at (x ∷ xs) (suc i) v a e = get_elem?-set_at xs i v a e

module _ (t : Trace) (logs : Logs) (held : IsLogged t logs) where
  pub stored-IsLogged :
      (logs' : Logs) (total dropped tenant : ℕ) (ring ring' : Spsc.Ring Event)
      → get_elem? t.rings tenant ≡ some ring
      → Holds ring' (logs' tenant)
      → ring'.cap ≡ 4096
      → ((i : ℕ) → tenant ≢ i → logs' i ≡ logs i)
      → IsLogged
          (record t {
            rings = set t.rings tenant ring';
            total_events = total;
            dropped_events = dropped;
          })
          logs'
  stored-IsLogged logs' total dropped tenant ring ring' at h size kept i lt =
      elim (ℕ_discrete tenant i) [
        | yes e ↦ (
          ring',
          ap (get_elem? (set t.rings tenant ring')) (sym e)
              ∙ get_elem?-set_at t.rings tenant ring' ring at,
          subst (λ j. Holds ring' (logs' j)) e h,
          size,
        )
        | no ne ↦ rw (kept i ne, get_elem?-set_ne t.rings ring' ne) (held i lt)
      ]

  pub with_log_ne :
      (tenant : ℕ) (xs : List Event) (i : ℕ) → tenant ≢ i → with_log logs tenant xs i ≡ logs i
  with_log_ne tenant xs i ne = ground arith

  pub with_log_self : (tenant : ℕ) (xs : List Event) → with_log logs tenant xs tenant ≡ xs
  with_log_self tenant xs = ground arith

  -- `trace_emit` records or drops the event as `record_event` does.
  pub trace_emit_lem : (ev : Event) → Ends (trace_emit t ev) t (record_event logs t ev)
  unfolding trace_emit record_event
  trace_emit_lem ev = elim (dec_lt ev.tenant t.n_tenants) [
    | no beyond ↦
        rw (le→ltb ev.tenant t.n_tenants (omega arith), le→leb t.n_tenants ev.tenant (omega arith))
          (t, refl, held, refl, refl, refl, refl)
    | yes lt ↦
        let (ring, at, h, size) = held ev.tenant lt in
        elim (dec_lt (length (logs ev.tenant)) 4096) [
          | yes room ↦
              let (done, h') = push-Holds h ev (omega arith) in
              rw
                (
                  lt→ltb ev.tenant t.n_tenants lt,
                  lt→ltb (length (logs ev.tenant)) 4096 room,
                  lt→leb ev.tenant t.n_tenants lt,
                  at,
                  done,
                )
                (
                  _,
                  refl,
                  stored-IsLogged (with_log logs ev.tenant (logs ev.tenant ++ ev ∷ []))
                      (add64 t.total_events 1) t.dropped_events ev.tenant ring (Spsc.push ring ev).1
                      at (rw (with_log_self ev.tenant (logs ev.tenant ++ ev ∷ [])) h')
                      (cap-push ring ev ∙ size) (with_log_ne ev.tenant (logs ev.tenant ++ ev ∷ [])),
                  refl,
                  refl,
                  refl,
                  refl,
                )
          | no full ↦
              let same = push-full h ev (omega (arith, h.fits)) in
              rw
                (
                  lt→ltb ev.tenant t.n_tenants lt,
                  le→ltb (length (logs ev.tenant)) 4096 (omega arith),
                  lt→leb ev.tenant t.n_tenants lt,
                  at,
                  same,
                )
                (
                  _,
                  refl,
                  stored-IsLogged logs t.total_events (add64 t.dropped_events 1) ev.tenant ring ring
                      at h size (λ i ne. refl),
                  refl,
                  refl,
                  refl,
                  refl,
                )
        ]
  ]
