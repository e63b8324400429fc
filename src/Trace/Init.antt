-- ===== src/Trace/Init.antt =====
-- `gmk_trace_init` of src/trace.c.
use ggmk.Base.{
  ℕ, zero, suc, ◌+◌, ◌-◌, ◌*◌, ◌≤◌, ◌<◌, ◌≡◌, refl, ap, some, List, [], ◌∷◌, arith, length,
  get_elem?, le→ltb, ==-zero_of_pos, replicate, get_elem?-append,
}
use ggmk.Bits.{IsPow2}
use ggmk.Spsc
use ggmk.Spsc.Holds.{Holds}
use ggmk.Spsc.Init.{init_buf-Holds, init-eq-init_buf}
use ggmk.Trace.{Event, Trace, init, init_rings, no_ring}
use ggmk.Trace.Logs.{IsLogged}

init_rings-Holds :
    (n i : ℕ) (pages : ℕ → ℕ → List Event)
    → ((j : ℕ) → j < i + n → length (pages j (4096 * 32)) ≡ 4096)
    → (rings : List (Spsc.Ring Event)) × (init_rings n i pages ≡ some rings)
      × (length rings ≡ n)
      × ((j : ℕ)
          → j < n
          → (ring : Spsc.Ring Event) × (get_elem? rings j ≡ some ring)
            × Holds ring []
            × (ring.cap ≡ 4096))
unfolding init_rings
init_rings-Holds zero i pages given = ([], refl, refl, λ j lt. elim lt [ ])
init_rings-Holds (suc n) i pages given =
    let p : IsPow2 4096 = record { exponent = 12; power = refl } in
    let (ring, done, h, same) =
      init_buf-Holds 4096 32 (pages i (4096 * 32)) (omega arith) (given i (omega arith)) p
        (omega arith) in
    let (rings, rest, size, held) =
      init_rings-Holds n (suc i) pages (λ j lt. given j (omega arith)) in
    rw (init-eq-init_buf 4096 32 (pages i), done, rest)
      (ring ∷ rings, refl, ap suc size, λ j lt. nth ring rings h same held j lt)
  where
    nth :
        (ring : Spsc.Ring Event) (rings : List (Spsc.Ring Event))
        → Holds ring []
        → ring.cap ≡ 4096
        → ((j : ℕ)
            → j < n
            → (ring : Spsc.Ring Event) × (get_elem? rings j ≡ some ring)
              × Holds ring []
              × (ring.cap ≡ 4096))
        → (j : ℕ) → j < suc n
        → (r : Spsc.Ring Event) × (get_elem? (ring ∷ rings) j ≡ some r)
          × Holds r []
          × (r.cap ≡ 4096)
    nth ring rings h same held zero lt = (ring, refl, h, same)
    nth ring rings h same held (suc j) lt = held j (omega arith)

-- For 1 to 16 tenants, with the memory that it asks for, `gmk_trace_init` leaves an empty ring for
-- each tenant, level 2 and both counts at 0.
pub trace_init_lem :
    (n : ℕ) (pages : ℕ → ℕ → List Event)
    → 0 < n
    → n ≤ 16
    → ((i : ℕ) → i < n → length (pages i (4096 * 32)) ≡ 4096)
    → (t : Trace) × (init n pages ≡ some t)
      × IsLogged t (λ i. [])
      × (t.n_tenants ≡ n)
      × (t.level ≡ 2)
      × (t.total_events ≡ 0)
      × (t.dropped_events ≡ 0)
unfolding init
trace_init_lem n pages pos few given =
    let (rings, done, size, held) = init_rings-Holds n 0 pages (λ i lt. given i (omega arith)) in
    rw (init, ==-zero_of_pos n pos, le→ltb 16 n few, done)
      (
        _,
        refl,
        (λ i lt.
            let (ring, at, h, same) = held i lt in
            (
              ring,
              rw (get_elem?-append rings (replicate (16 - n) no_ring) i (omega arith)) at,
              h,
              same,
            )),
        refl,
        refl,
        refl,
        refl,
      )
