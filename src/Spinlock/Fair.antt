-- ===== src/Spinlock/Fair.antt =====
-- Schedules of the threads at the lock of include/ggmk/arch/spinlock.h in which none is left out.
use ggmk.Base.{ℕ, suc, ◌+◌, ◌<◌, ◌≡◌, ◌∙◌, sym, ap, arith, true}
use ggmk.Spinlock.{Turn, System, step, run}

-- A schedule of threads below `n` in which each of them runs again and again, and wants to give the lock
-- back again and again.
pub record IsFair (n : ℕ) (turns : ℕ → Turn) : Type 0 where
  pub below : (t : ℕ) → (turns t).thread < n
  pub again :
      (t i : ℕ) → i < n → (d : ℕ) × ((turns (t + d)).thread ≡ i) × ((turns (t + d)).leaves ≡ true)

pub later-IsFair : (n : ℕ) (turns : ℕ → Turn) → IsFair n turns → IsFair n (λ k. turns (suc k))
later-IsFair n turns f = record {
  below = λ t. f.below (suc t);
  again = λ t i lt.
      let (d, who, out) = f.again (suc t) i lt in
      let e : suc t + d ≡ suc (t + d) = omega arith in
      (
        d,
        ap (λ (k : ℕ). (turns k).thread) (sym e) ∙ who,
        ap (λ (k : ℕ). (turns k).leaves) (sym e) ∙ out,
      );
}

-- At some time `P` holds.
pub data Eventually (P : System → (ℕ → Turn) → Type 0) : System → (ℕ → Turn) → Type 0 where
  now : {s : System} {turns : ℕ → Turn} → P s turns → Eventually P s turns
  later :
      {s : System} {turns : ℕ → Turn}
      → Eventually P (step s (turns 0)) (λ k. turns (suc k))
      → Eventually P s turns

pub and_then :
    {P Q : System → (ℕ → Turn) → Type 0} {s : System} {turns : ℕ → Turn}
    → Eventually P s turns
    → ((s' : System) (turns' : ℕ → Turn) → P s' turns' → Eventually Q s' turns')
    → Eventually Q s turns
and_then {s} {turns} (now p) next = next s turns p
and_then (later e) next = later (and_then e next)

pub Eventually-run :
    {P : System → Type 0} {s : System} {turns : ℕ → Turn}
    → Eventually (λ s' turns'. P s') s turns
    → (d : ℕ) × P (run s turns d)
unfolding run
Eventually-run (now p) = (0, p)
Eventually-run (later e) = let (d, p) = Eventually-run e in (suc d, p)

-- the next time at which a thread runs and wants to leave
pub fair_turn :
    {n : ℕ} {turns : ℕ → Turn}
    → IsFair n turns
    → (i : ℕ) → i < n
    → (d : ℕ) × ((turns d).thread ≡ i) × ((turns d).leaves ≡ true)
fair_turn {n} {turns} f i lt =
    let (d, who, out) = f.again 0 i lt in
    let e : d ≡ 0 + d = omega arith in
    (d, ap (λ (x : ℕ). (turns x).thread) e ∙ who, ap (λ (x : ℕ). (turns x).leaves) e ∙ out)
