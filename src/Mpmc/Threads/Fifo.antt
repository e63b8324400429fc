-- ===== src/Mpmc/Threads/Fifo.antt =====
-- What holds of a ring of src/ring_mpmc.c after all accesses of its threads.
use ggmk.Base.{
  ℕ, suc, ◌+◌, ◌%◌, ◌^◌, ◌<◌, ◌≡◌, ◌≢◌, ◌∙◌, refl, sym, ap, inl, inr, arith, Bool, false, some,
  List, [], ◌∷◌, length, get_elem?,
}
use mathlib.Core.Path.{subst}
use native.Mathlib.Nat.{mod-eq_of_lt}
use ggmk.Bits.{IsPow2}
use ggmk.Mpmc.Threads.{Turn, System, start, step, after}
use ggmk.Mpmc.Threads.Inv.{ticket, AllLeft, AllOnce, Inv}
use ggmk.Mpmc.Threads.Moves.{holder}
use ggmk.Mpmc.Threads.Steps.{step_lem}

module _ {A : Type 0} where
  -- Each of the elements was pushed at its position.
  abbrev pub AllPushed : List A → List (ℕ × A) → Type 0
  AllPushed pushes [] = Unit {0}
  AllPushed pushes ((pos, elem) ∷ pops) = (get_elem? pushes pos ≡ some elem) × AllPushed pushes pops

  AllLeft-AllPushed :
      (cap : ℕ) (pushes : List A) (at : ℕ → ℕ) (pops : List (ℕ × A))
      → AllLeft cap pushes at pops
      → AllPushed pushes pops
  AllLeft-AllPushed cap pushes at [] l = tt
  AllLeft-AllPushed cap pushes at ((pos, elem) ∷ pops) (sent, past, l) =
      (sent, AllLeft-AllPushed cap pushes at pops l)

module _ {A : Type 0} (cap : ℕ) (pow : IsPow2 cap) (two : 1 < cap) where
  abbrev IsSound : ℕ → System A → Type 0
  IsSound n s = (at : ℕ → ℕ) × (full : ℕ → Bool) × Inv cap n s at full

  start-IsSound : (value : ℕ → A) → IsSound 0 (start cap value)
  start-IsSound value = (
    λ i. i,
    λ i. false,
    record {
      capacity = refl;
      counted = refl;
      early = omega arith;
      ordered = omega arith;
      placed = λ i lt. (mod-eq_of_lt lt, omega arith);
      empty = λ i lt f. refl;
      filled = λ i lt f. absurd (cc);
      claimed = λ pos lt. absurd (omega arith);
      taken = λ pos lt. absurd (omega arith);
      fits = λ i. tt;
      unique = λ i j pos ti tj. absurd (cc);
      left = tt;
      once = tt;
    },
  )

  after-IsSound :
      (ms : List (Turn A)) (n : ℕ) (s : System A)
      → n + length ms + cap + 2 < 2 ^ 31
      → IsSound n s
      → IsSound (n + length ms) (after s ms)
  unfolding after
  after-IsSound [] n s small (at, full, inv) =
      subst (λ (k : ℕ). IsSound k s) (omega arith) (at, full, inv)
  after-IsSound (m ∷ ms) n s small (at, full, inv) =
      subst (λ (k : ℕ). IsSound k (after (step s m) ms)) (omega arith)
        (after-IsSound ms (suc n) (step s m) (omega arith) (step_lem inv pow two (omega arith) m))

module _ {A : Type 0} (cap : ℕ) (pow : IsPow2 cap) (two : 1 < cap) (value : ℕ → A)
    (ms : List (Turn A)) (small : length ms + cap + 2 < 2 ^ 31) where
  sound : IsSound cap pow two (0 + length ms) (after (start cap value) ms)
  sound =
      after-IsSound cap pow two ms 0 (start cap value) (omega arith)
        (start-IsSound cap pow two value)

  -- The cell of a thread is at its position.
  held :
      {at : ℕ → ℕ} {full : ℕ → Bool}
      (inv : Inv cap (0 + length ms) (after (start cap value) ms) at full) (i pos : ℕ)
      → ticket ((after (start cap value) ms).place i) ≡ some pos
      → at (pos % cap) ≡ pos
  held {at} {full} inv i pos t =
      elim (holder inv pow two (omega arith) i ((after (start cap value) ms).place i) pos t
        (inv.fits i)) [
          | inl (lo, there) ↦ ap (λ (c : ℕ). at (pos % c)) (sym inv.capacity) ∙ there.0
          | inr (lo, there) ↦ ap (λ (c : ℕ). at (pos % c)) (sym inv.capacity) ∙ there.0
        ]

  -- Any threads at a ring of two cells or more, a power of two, that is as gmk_ring_mpmc_init leaves it, whose
  -- accesses interleave in any order and number less than 2 ^ 31 - 2 less the capacity: two different threads,
  -- each between its successful compare-and-swap and its store of `seq`, have different cells.
  pub cells_disjoint :
      (i j pos pos' : ℕ)
      → i ≢ j
      → ticket ((after (start cap value) ms).place i) ≡ some pos
      → ticket ((after (start cap value) ms).place j) ≡ some pos'
      → pos % cap ≢ pos' % cap
  cells_disjoint i j pos pos' apart ti tj same =
      let (at, full, inv) = sound in
      let here = held inv i pos ti in
      let there = held inv j pos' tj in
      let e : pos' ≡ pos = sym there ∙ ap at (sym same) ∙ here in
      apart (inv.unique i j pos ti (tj ∙ ap some e))

  -- Any threads at a ring of two cells or more, a power of two, that is as gmk_ring_mpmc_init leaves it, whose
  -- accesses interleave in any order and number less than 2 ^ 31 - 2 less the capacity: an element that a pop
  -- has returned, having found `head` to be p at its successful compare-and-swap, is the one whose push was
  -- the p'th, from 0, to succeed in its own, and no two pops have found the same p.
  pub pops_lem :
      AllPushed (after (start cap value) ms).pushes (after (start cap value) ms).pops
      × AllOnce (after (start cap value) ms).pops
  pops_lem =
      let (at, full, inv) = sound in
      (
        AllLeft-AllPushed cap (after (start cap value) ms).pushes at
            (after (start cap value) ms).pops inv.left,
        inv.once,
      )
