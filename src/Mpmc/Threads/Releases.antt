-- ===== src/Mpmc/Threads/Releases.antt =====
-- The store of a pop on a ring of src/ring_mpmc.c keeps what holds of all threads.
use ggmk.Base.{
  ℕ, suc, ◌+◌, ◌%◌, ◌^◌, ◌≤◌, ◌<◌, ◌≡◌, ◌≢◌, ◌∙◌, refl, sym, ap, inl, inr, arith, Bool, true, false,
  some, List, [], ◌∷◌, ◌++◌, get_elem?, ◌==◌, Bool-cases,
}
use mathlib.Core.List.{append-nil}
use mathlib.Core.Path.{subst}
use native.Mathlib.Nat.{add-mod_right}
use ggmk.Bits.{IsPow2}
use ggmk.Mpmc.Threads.{Shared, idle, pop_store, update, System}
use ggmk.Mpmc.Threads.Inv.{ticket, Fits, AllLeft, IsOnce, AllOnce, Inv}
use ggmk.Mpmc.Threads.Places.{update_self, Fits-store}
use ggmk.Mpmc.Threads.Moves.{unique-update, Fits-update}
use ggmk.Mpmc.Threads.Stores.{apart, AllLeft-move}

module _ {A : Type 0} {cap n : ℕ} {s : System A} {at : ℕ → ℕ} {full : ℕ → Bool}
    (inv : Inv cap n s at full) (pow : IsPow2 cap) (two : 1 < cap) (small : n + cap + 2 < 2 ^ 31)
    (i : ℕ) where
  abbrev r : Shared A
  r = s.ring

  IsOnce-left :
      (pos : ℕ)
      → at (pos % cap) ≡ pos
      → (pops : List (ℕ × A)) → AllLeft cap s.pushes at pops
      → IsOnce pos pops
  IsOnce-left pos here [] l = tt
  IsOnce-left pos here ((other, x) ∷ pops) (sent, past, l) =
      ((λ e. omega (arith, here, ap (λ (y : ℕ). at (y % cap)) e)), IsOnce-left pos here pops l)

  IsOnce-append :
      (pos new : ℕ) (elem : A) (pops : List (ℕ × A))
      → pos ≢ new
      → IsOnce pos pops
      → IsOnce pos (pops ++ (new, elem) ∷ [])
  IsOnce-append pos new elem [] ne o = (ne, tt)
  IsOnce-append pos new elem ((other, x) ∷ pops) ne (h, o) =
      (h, IsOnce-append pos new elem pops ne o)

  AllOnce-append :
      (new : ℕ) (elem : A) (pops : List (ℕ × A))
      → IsOnce new pops
      → AllOnce pops
      → AllOnce (pops ++ (new, elem) ∷ [])
  AllOnce-append new elem [] fresh o = (tt, tt)
  AllOnce-append new elem ((other, x) ∷ pops) (ne, fresh) (h, o) =
      (IsOnce-append other new elem pops (λ e. ne (sym e)) h, AllOnce-append new elem pops fresh o)

  AllLeft-snoc :
      (at' : ℕ → ℕ) (pos : ℕ) (elem : A) (pops : List (ℕ × A))
      → get_elem? s.pushes pos ≡ some elem
      → pos < at' (pos % cap)
      → AllLeft cap s.pushes at' pops
      → AllLeft cap s.pushes at' (pops ++ (pos, elem) ∷ [])
  AllLeft-snoc at' pos elem [] sent past l = (sent, past, tt)
  AllLeft-snoc at' pos elem ((other, x) ∷ pops) sent past (h, g, l) =
      (h, g, AllLeft-snoc at' pos elem pops sent past l)

  -- the store of a pop
  pub released :
      (elem : A) (pos : ℕ)
      → s.place i ≡ pop_store pos elem
      → Inv cap
          (suc n)
          (record {
            ring = record r { seq = update r.seq (pos % r.cap) (pos + r.cap) };
            place = update s.place i idle;
            pushes = s.pushes ++ [];
            pops = s.pops ++ (pos, elem) ∷ [];
          })
          (update at (pos % r.cap) (pos + r.cap))
          (update full (pos % r.cap) false)
  released elem pos here =
      let (lo, there, sent) = subst (Fits r s.pushes at full) here (inv.fits i) in
      let mine : ticket (s.place i) ≡ some pos = ap ticket here in
      let c = pos % r.cap in
      let at' = update at c (pos + r.cap) in
      let full' = update full c false in
      let up : (x : ℕ) → at x ≤ at' x = λ x. elim (Bool-cases (c == x)) [
        | inl same ↦ let e : c ≡ x = ground arith in rw same (omega (arith, sym there.0 ∙ ap at e))
        | inr other ↦ rw other (omega arith)
      ] in
      let at_c : at' c ≡ pos + r.cap = update_self at c (pos + r.cap) in
      let c_lem : c ≡ pos % cap = ap (λ (x : ℕ). pos % x) inv.capacity in
      let past : pos < at' (pos % cap) = omega (arith, ap at' (sym c_lem) ∙ at_c, inv.capacity) in
      let r' : Shared A = record r { seq = update r.seq c (pos + r.cap) } in
      rw (append-nil s.pushes) (record {
        capacity = inv.capacity;
        counted = inv.counted;
        early = omega (arith, inv.early);
        ordered = inv.ordered;
        placed = λ j lt. elim (Bool-cases (c == j)) [
          | inl same ↦
              let e : c ≡ j = ground arith in
              let f : (pos + r.cap) % cap ≡ j =
                rw inv.capacity (add-mod_right pos cap ∙ sym c_lem ∙ e) in
              rw same (f, omega (arith, inv.ordered, inv.capacity))
          | inr other ↦ rw other (inv.placed j lt)
        ];
        empty = λ j lt f. elim (Bool-cases (c == j)) [
          | inl same ↦ rw same refl
          | inr other ↦ rw other (inv.empty j lt (rw other at f))
        ];
        filled = λ j lt f. elim (Bool-cases (c == j)) [
          | inl same ↦ let g : false ≡ true = rw same at f in absurd (cc)
          | inr other ↦ rw other (inv.filled j lt (rw other at f))
        ];
        claimed = λ p lt. omega (arith, inv.claimed p lt, up (p % cap));
        taken = λ p lt. elim (Bool-cases (c == p % cap)) [
          | inr other ↦ rw other (inv.taken p lt)
          | inl same ↦
              let e : c ≡ p % cap = ground arith in
              let f : at (p % cap) ≡ pos = ap at (sym e) ∙ there.0 in
              rw same (elim (inv.taken p lt) [
                | inl low ↦ inl (omega arith)
                | inr (g, h) ↦ inl (omega (arith, inv.capacity))
              ])
        ];
        fits = Fits-update inv pow two small i r' s.pushes at' full' idle tt (λ j ne.
            Fits-store r s.pushes at full pos true there (pos + r.cap) (pos + r.cap) false
              (omega (arith, inv.ordered)) (λ z. lo) (s.place j)
              (apart inv pow two small i pos mine j ne) (inv.fits j));
        unique = unique-update inv pow two small i idle (λ p t j tj. absurd (cc));
        left =
            AllLeft-snoc at' pos elem s.pops sent past
              (AllLeft-move inv pow two small i at' up s.pops inv.left);
        once =
            AllOnce-append pos elem s.pops
              (IsOnce-left pos (ap at (sym c_lem) ∙ there.0) s.pops inv.left) inv.once;
      })
