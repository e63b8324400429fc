-- ===== src/Chan/Names.antt =====
-- Names of channels in src/chan.c: `gmk_chan_find` after `gmk_chan_open`.
use native.Mathlib.Nat.{zero-add}
use ggmk.Base.{
  ℕ, zero, suc, ◌+◌, ◌*◌, ◌<◌, ◌≡◌, ◌≢◌, ◌∙◌, refl, ap, true, false, ◌&&◌, some, none, List, [],
  ◌∷◌, ◌++◌, arith, ltb, leb, length, take, ◌==◌, if◌then◌else◌, u32_mod, lt→leb, Bool-cases, inl,
  inr,
}
use ggmk.Bits.{IsPow2}
use ggmk.Mpmc
use ggmk.Mpmc.{Cell, cell_stride}
use ggmk.Mpmc.Holds.{Holds}
use ggmk.Mpmc.Init.{init_valid}
use ggmk.Platform.Pow2.{is_power_of_two_iff}
use ggmk.Task.{Task}
use ggmk.Trace.{Event}
use ggmk.Trace.Written.{IsTraced, write_if-IsTraced}
use ggmk.Chan.{Chan, ChanReg, same_name, find_from, find}
use ggmk.Chan.Registry.{opened_as, slots_for, fresh_chan, add_chan, open_chan}

same_name-kept :
    (n : ℕ) (name : List ℕ) → same_name (suc n) (take n name) name ≡ ltb (length name) (suc n)
unfolding same_name
same_name-kept zero [] = refl
same_name-kept zero (x ∷ name) = ground arith
same_name-kept (suc n) [] = ground arith
same_name-kept (suc n) (x ∷ name) =
    let self : (x == x) ≡ true = ground arith in rw (self, same_name-kept n name) (ground arith)

-- a channel behind those that do not have the name
find_from-last :
    (chs : List Chan) (ch : Chan) (name : List ℕ) (i : ℕ)
    → find_from chs name i ≡ none
    → find_from (chs ++ ch ∷ []) name i
      ≡ (if ch.opened && same_name 64 ch.name name then some (i + length chs) else none)
unfolding find_from
find_from-last [] ch name i absent = let e : i + 0 ≡ i = omega arith in rw e refl
find_from-last (x ∷ chs) ch name i absent =
    elim (Bool-cases (x.opened && same_name 64 x.name name)) [
      | inl found ↦ absurd (let e : some i ≡ none = rw found at absent in cc)
      | inr other ↦
          let rest : find_from chs name (suc i) ≡ none = rw other at absent in
          let e : i + suc (length chs) ≡ suc i + length chs = omega arith in
          rw (other, e) (find_from-last chs ch name (suc i) rest)
    ]

slots_for_lem : (slots : ℕ) → IsPow2 slots → slots ≢ 0 → slots_for slots ≡ slots
unfolding slots_for
slots_for_lem slots pow2 ne =
    let some_slots : (slots == 0) ≡ false = ground arith in
    rw (slots_for, some_slots, (is_power_of_two_iff slots).1 pow2) refl

module _ (cr : ChanReg) (name : List ℕ) (mode guarantee msg_type slots : ℕ)
    (pages : ℕ → List (Cell Task)) (now : ℕ) (room : length cr.channels < 256)
    (absent : find cr name ≡ none) (traced : IsTraced cr.trace) (pow2 : IsPow2 slots)
    (two : 1 < slots) (small : slots < u32_mod)
    (supplied : length (pages (slots * cell_stride 48)) ≡ slots) where
  -- `gmk_chan_open` of a name that is not found adds a channel with an empty ring behind the others.
  pub open_chan_lem :
      (ring : Mpmc.Ring Task) × (cr' : ChanReg) × (open_chan cr name mode guarantee msg_type slots
          pages now
        ≡ some (opened_as (length cr.channels), cr'))
      × (cr'.channels
          ≡ cr.channels
            ++ fresh_chan (length cr.channels) name mode guarantee msg_type slots ring ∷ [])
      × (cr'.sched ≡ cr.sched)
      × IsTraced cr'.trace
      × Holds ring []
      × (ring.cap ≡ slots)
  unfolding open_chan find
  open_chan_lem =
      let (ring, made, held, cap) =
        init_valid slots 48 pages pow2 small two (omega arith) supplied in
      let ev : Event = record {
        tsc = now;
        ev_type = 0x14;
        tenant = 0;
        type = 0;
        arg0 = length cr.channels;
        arg1 = mode;
      } in
      let (trace, done, traced') = write_if-IsTraced cr.trace ev traced in
      let not_full : leb 256 (length cr.channels) ≡ false = lt→leb (length cr.channels) 256 room in
      rw (open_chan, not_full, absent, slots_for_lem slots pow2 (omega arith), made, add_chan, done)
        (
          ring,
          _,
          refl,
          ap
              (λ (n : ℕ).
                cr.channels
                ++ fresh_chan (length cr.channels) name mode guarantee msg_type n ring ∷ [])
              (slots_for_lem slots pow2 (omega arith)),
          refl,
          traced',
          held,
          cap,
        )

  -- `gmk_chan_find` of the name after `gmk_chan_open` is the id that it returned, if the name is shorter
  -- than the array that keeps it, and -1 otherwise.
  pub open-find :
      (cr' : ChanReg) × (open_chan cr name mode guarantee msg_type slots pages now
        ≡ some (opened_as (length cr.channels), cr'))
      × (find cr' name ≡ (if ltb (length name) 64 then some (length cr.channels) else none))
  unfolding find
  open-find =
      let (ring, cr', done, added, same, traced', held, cap) = open_chan_lem in
      let found =
        find_from-last cr.channels
          (fresh_chan (length cr.channels) name mode guarantee msg_type slots ring) name 0 absent in
      (
        cr',
        done,
        ap (λ (chs : List Chan). find_from chs name 0) added
            ∙ found
            ∙ rw (zero-add, same_name-kept 63 name) refl,
      )
