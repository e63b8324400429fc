-- ===== src/Mpmc/Threads/Stores.antt =====
-- The copy or the store of a push on a ring of src/ring_mpmc.c keeps what holds of all of them.
use ggmk.Base.{
  ℕ, suc, ◌+◌, ◌%◌, ◌^◌, ◌≤◌, ◌<◌, ◌≡◌, ◌≢◌, ◌∙◌, refl, sym, ap, inl, inr, arith, Bool, true, false,
  some, List, [], ◌∷◌, ◌++◌, ◌==◌, Bool-cases,
}
use mathlib.Core.List.{append-nil}
use mathlib.Core.Path.{subst}
use ggmk.Bits.{IsPow2}
use ggmk.Mpmc.Threads.{Shared, idle, push_copy, push_store, update, System}
use ggmk.Mpmc.Threads.Inv.{ticket, Fits, AllLeft, Inv}
use ggmk.Mpmc.Threads.Places.{update_self, update_ne, Fits-copy, Fits-store}
use ggmk.Mpmc.Threads.Moves.{unique-update, Fits-update}

module _ {A : Type 0} {cap n : ℕ} {s : System A} {at : ℕ → ℕ} {full : ℕ → Bool}
    (inv : Inv cap n s at full) (pow : IsPow2 cap) (two : 1 < cap) (small : n + cap + 2 < 2 ^ 31)
    (i : ℕ) where
  abbrev r : Shared A
  r = s.ring

  -- the thread has the cell of position `pos`, and no other thread has it
  pub apart :
      (pos : ℕ)
      → ticket (s.place i) ≡ some pos
      → (j : ℕ) → i ≢ j
      → (other : ℕ) → ticket (s.place j) ≡ some other
      → other ≢ pos
  apart pos mine j ne other tj e = ne (inv.unique i j pos mine (tj ∙ ap some e))

  pub AllLeft-move :
      (at' : ℕ → ℕ)
      → ((x : ℕ) → at x ≤ at' x)
      → (pops : List (ℕ × A)) → AllLeft cap s.pushes at pops
      → AllLeft cap s.pushes at' pops
  AllLeft-move at' up [] l = tt
  AllLeft-move at' up ((pos, x) ∷ pops) (sent, past, l) =
      (sent, omega (arith, up (pos % cap)), AllLeft-move at' up pops l)

  -- the copy of a push
  pub copied :
      (elem : A) (pos : ℕ)
      → s.place i ≡ push_copy elem pos
      → Inv cap
          (suc n)
          (record {
            ring = record r { value = update r.value (pos % r.cap) elem };
            place = update s.place i (push_store elem pos);
            pushes = s.pushes ++ [];
            pops = s.pops ++ [];
          })
          at
          full
  copied elem pos here =
      let (lo, there, sent) = subst (Fits r s.pushes at full) here (inv.fits i) in
      let mine : ticket (s.place i) ≡ some pos = ap ticket here in
      let r' : Shared A = record r { value = update r.value (pos % r.cap) elem } in
      rw (append-nil s.pushes, append-nil s.pops)
        (record {
          capacity = inv.capacity;
          counted = inv.counted;
          early = omega (arith, inv.early);
          ordered = inv.ordered;
          placed = inv.placed;
          empty = inv.empty;
          filled = λ j lt f.
              let (e, low, old) = inv.filled j lt f in
              let ne : pos % r.cap ≢ j =
                λ same. (let g : false ≡ true = sym there.1 ∙ ap full same ∙ f in cc) in
              (e, low, old ∙ ap some (sym (update_ne r.value (pos % r.cap) j elem ne)));
          claimed = inv.claimed;
          taken = inv.taken;
          fits =
              Fits-update inv pow two small i r' s.pushes at full (push_store elem pos)
                (lo, there, sent, update_self r.value (pos % r.cap) elem)
                (λ j ne.
                  Fits-copy r s.pushes at full pos false there elem (s.place j)
                    (apart pos mine j ne) (inv.fits j));
          unique =
              unique-update inv pow two small i (push_store elem pos)
                (λ p t j tj. inv.unique i j p (mine ∙ t) tj);
          left = inv.left;
          once = inv.once;
        })

  -- the store of a push
  pub published :
      (elem : A) (pos : ℕ)
      → s.place i ≡ push_store elem pos
      → Inv cap
          (suc n)
          (record {
            ring = record r { seq = update r.seq (pos % r.cap) (suc pos) };
            place = update s.place i idle;
            pushes = s.pushes ++ [];
            pops = s.pops ++ [];
          })
          (update at (pos % r.cap) pos)
          (update full (pos % r.cap) true)
  published elem pos here =
      let (lo, there, sent, copied') = subst (Fits r s.pushes at full) here (inv.fits i) in
      let mine : ticket (s.place i) ≡ some pos = ap ticket here in
      let c = pos % r.cap in
      let at' = update at c pos in
      let full' = update full c true in
      let same_at : (x : ℕ) → at' x ≡ at x = λ x. elim (Bool-cases (c == x)) [
        | inl same ↦ let e : c ≡ x = ground arith in rw same (sym there.0 ∙ ap at e)
        | inr other ↦ rw other refl
      ] in
      let r' : Shared A = record r { seq = update r.seq c (suc pos) } in
      rw (append-nil s.pushes, append-nil s.pops)
        (record {
          capacity = inv.capacity;
          counted = inv.counted;
          early = omega (arith, inv.early);
          ordered = inv.ordered;
          placed = λ j lt.
              let (e, low) = inv.placed j lt in
              (ap (λ (x : ℕ). x % cap) (same_at j) ∙ e, omega (arith, same_at j));
          empty = λ j lt f. elim (Bool-cases (c == j)) [
            | inl same ↦ let g : true ≡ false = rw same at f in absurd (cc)
            | inr other ↦ rw other (inv.empty j lt (rw other at f))
          ];
          filled = λ j lt f. elim (Bool-cases (c == j)) [
            | inl same ↦
                let e : c ≡ j = ground arith in
                rw same (refl, lo, sent ∙ ap some (sym copied' ∙ ap r.value e))
            | inr other ↦ rw other (inv.filled j lt (rw other at f))
          ];
          claimed = λ p lt. omega (arith, inv.claimed p lt, same_at (p % cap));
          taken = λ p lt. elim (Bool-cases (c == p % cap)) [
            | inr other ↦ rw other (inv.taken p lt)
            | inl same ↦
                let e : c ≡ p % cap = ground arith in
                rw same (elim (inv.taken p lt) [
                  | inl low ↦ inl (omega (arith, sym there.0 ∙ ap at e))
                  | inr (g, f) ↦ let h : false ≡ true = sym there.1 ∙ ap full e ∙ f in absurd (cc)
                ])
          ];
          fits = Fits-update inv pow two small i r' s.pushes at' full' idle tt (λ j ne.
              Fits-store r s.pushes at full pos false there (suc pos) pos true lo (λ z. absurd (cc))
                (s.place j) (apart pos mine j ne) (inv.fits j));
          unique = unique-update inv pow two small i idle (λ p t j tj. absurd (cc));
          left = AllLeft-move at' (λ x. omega (arith, same_at x)) s.pops inv.left;
          once = inv.once;
        })
