-- ===== src/Module/Poison.antt =====
-- Failures that poison a task type: `gmk_module_record_fail` of src/module.c.
use ggmk.Base.{
  ℕ, suc, ◌+◌, ◌%◌, ◌^◌, ◌<◌, ◌≡◌, ◌≢◌, ◌∙◌, refl, true, false, not, ◌&&◌, Option, some, List, [],
  ◌∷◌, arith, leb, get_or, length, get_or-set, length-set, lt→leb, inl, inr, Bool-cases, ◌>>=◌,
  add32,
}
use mathlib.Core.Path.{subst}
use native.Mathlib.Nat.{add-zero}
use ggmk.Trace.{Event}
use ggmk.Trace.Written.{IsTraced, write_if-IsTraced}
use ggmk.Module.{Registry, record_fail, reset_poison, is_poisoned}

module _ {F : Type 0} where
  -- The tables have their sizes, and the trace's rings hold events.
  pub record IsValid (mr : Registry F) : Type 0 where
    pub counts : length mr.fail_counts ≡ 256
    pub flags : length mr.poisoned ≡ 256
    pub traced : IsTraced mr.trace

  -- The type has failed `k` times since its poison was reset.
  pub record HasFailed (mr : Registry F) (type k : ℕ) : Type 0 where
    pub valid : IsValid mr
    pub count : get_or mr.fail_counts type 0 ≡ k % 2 ^ 32
    pub flag : get_or mr.poisoned type false ≡ leb 16 k

  reset_poison-HasFailed :
      (mr : Registry F) (type : ℕ)
      → IsValid mr
      → type < 256
      → HasFailed (reset_poison mr type) type 0
  unfolding reset_poison
  reset_poison-HasFailed mr type v lt = rw (lt→leb type 256 lt) (record {
    valid = record {
      counts = length-set mr.fail_counts type 0 ∙ v.counts;
      flags = length-set mr.poisoned type false ∙ v.flags;
      traced = v.traced;
    };
    count = ground (arith, get_or-set mr.fail_counts type type 0 0 (omega (arith, v.counts)));
    flag = ground (arith, get_or-set mr.poisoned type type false false (omega (arith, v.flags)));
  })

  -- the flags of the other types stay
  abbrev pub OthersStay : Registry F → Registry F → ℕ → Type 0
  OthersStay mr mr' type =
      (j : ℕ) → type ≢ j → get_or mr'.poisoned j false ≡ get_or mr.poisoned j false

  record_fail-HasFailed :
      (mr : Registry F) (type k now : ℕ)
      → HasFailed mr type k
      → type < 256
      → (mr' : Registry F) × (record_fail mr type now ≡ some mr')
        × HasFailed mr' type (suc k)
        × OthersStay mr mr' type
  unfolding record_fail
  record_fail-HasFailed mr type k now h lt =
      let c = get_or mr.fail_counts type 0 in
      let b = get_or mr.poisoned type false in
      let counted : add32 c 1 ≡ suc k % 2 ^ 32 = ground (arith, h.count) in
      let sized : type < length mr.fail_counts = omega (arith, h.valid.counts) in
      let sized' : type < length mr.poisoned = omega (arith, h.valid.flags) in
      elim (Bool-cases (leb 16 (add32 c 1) && not b)) [
        | inl fires ↦
            let ev : Event = record {
              tsc = now;
              ev_type = 0x32;
              tenant = 0;
              type = type % 2 ^ 16;
              arg0 = type;
              arg1 = add32 c 1;
            } in
            let (trace, done, traced) = write_if-IsTraced mr.trace ev h.valid.traced in
            rw (record_fail, lt→leb type 256 lt, fires, done)
              (
                _,
                refl,
                record {
                  valid = record {
                    counts = length-set mr.fail_counts type _ ∙ h.valid.counts;
                    flags = length-set mr.poisoned type true ∙ h.valid.flags;
                    traced = traced;
                  };
                  count =
                      ground
                        (arith, get_or-set mr.fail_counts type type (add32 c 1) 0 sized, counted);
                  flag =
                      ground (arith, get_or-set mr.poisoned type type true false sized', counted);
                },
                λ j ne. ground (arith, get_or-set mr.poisoned type j true false sized'),
              )
        | inr quiet ↦
            rw (record_fail, lt→leb type 256 lt, quiet)
              (
                _,
                refl,
                record {
                  valid = record {
                    counts = length-set mr.fail_counts type _ ∙ h.valid.counts;
                    flags = h.valid.flags;
                    traced = h.valid.traced;
                  };
                  count =
                      ground
                        (arith, get_or-set mr.fail_counts type type (add32 c 1) 0 sized, counted);
                  flag = ground (arith, h.flag, counted);
                },
                λ j ne. refl,
              )
      ]

  -- the failures of a type at a list of time stamps
  pub record_fails : Registry F → ℕ → List ℕ → Option (Registry F)
  record_fails mr type [] = some mr
  record_fails mr type (now ∷ times) =
      record_fail mr type now >>= λ mr'. record_fails mr' type times

  record_fails-HasFailed :
      (mr : Registry F) (type k : ℕ) (times : List ℕ)
      → HasFailed mr type k
      → type < 256
      → (mr' : Registry F) × (record_fails mr type times ≡ some mr')
        × HasFailed mr' type (k + length times)
        × OthersStay mr mr' type
  unfolding record_fails
  record_fails-HasFailed mr type k [] h lt = (mr, refl, rw (add-zero k) h, λ j ne. refl)
  record_fails-HasFailed mr type k (now ∷ times) h lt =
      let (mr', done, h', stay) = record_fail-HasFailed mr type k now h lt in
      let (mr'', done', h'', stay') = record_fails-HasFailed mr' type (suc k) times h' lt in
      rw (done, done')
        (mr'', refl, subst (HasFailed mr'' type) (omega arith) h'', λ j ne. stay' j ne ∙ stay j ne)

  reset_others :
      (mr : Registry F) (type j : ℕ)
      → type < length mr.poisoned
      → type ≢ j
      → get_or (reset_poison mr type).poisoned j false ≡ get_or mr.poisoned j false
  unfolding reset_poison
  reset_others mr type j sized ne = ground (arith, get_or-set mr.poisoned type j false false sized)

  -- After `gmk_module_reset_poison`, the type is poisoned from its 16th failure on, however many
  -- follow, and not before; no other type's poison changes, and every call returns.
  pub record_fails_lem :
      (mr : Registry F) (type : ℕ) (times : List ℕ)
      → IsValid mr
      → type < 256
      → (mr' : Registry F) × (record_fails (reset_poison mr type) type times ≡ some mr')
        × (is_poisoned mr' type ≡ leb 16 (length times))
        × ((j : ℕ) → type ≢ j → is_poisoned mr' j ≡ is_poisoned mr j)
  unfolding is_poisoned reset_poison
  record_fails_lem mr type times v lt =
      let (mr', done, h, stay) =
        record_fails-HasFailed (reset_poison mr type) type 0 times
          (reset_poison-HasFailed mr type v lt) lt in
      let sized : type < length mr.poisoned = omega (arith, v.flags) in
      (
        mr',
        done,
        ground (arith, h.flag),
        λ j ne. ground (arith, stay j ne, reset_others mr type j sized ne),
      )
