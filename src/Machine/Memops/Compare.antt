-- ===== src/Machine/Memops/Compare.antt =====
-- What `memcmp` of arch/x86_64/memops.c says of two areas.
use ggmk.Base.{ℕ, zero, suc, ◌+◌, ◌==◌, ◌≡◌, ◌↔◌, refl, ap, arith, ℕ_discrete, Bool, true, false}
use ggmk.Machine.Memops.{Bytes, ℤ, pos, negsuc, difference, memcmp}

-- the first `n` bytes from `a` and `b` on are the same
abbrev pub AllSame : ℕ → Bytes → ℕ → ℕ → Type 0
AllSame zero mem a b = Unit
AllSame (suc n) mem a b = (mem a ≡ mem b) × AllSame n mem (a + 1) (b + 1)

abbrev is_zero : ℤ → Bool
is_zero (pos n) = n == 0
is_zero (negsuc n) = false

difference-zero : (x y : ℕ) → is_zero (difference x y) ≡ (x == y)
unfolding difference
difference-zero x y = ground arith

-- `memcmp` is 0 exactly for areas with the same bytes.
pub memcmp-zero_iff :
    (n : ℕ) (mem : Bytes) (a b : ℕ) → (memcmp n mem a b ≡ pos 0) ↔ AllSame n mem a b
unfolding memcmp
memcmp-zero_iff zero mem a b = ((λ e. tt), (λ s. refl))
memcmp-zero_iff (suc n) mem a b = elim (ℕ_discrete (mem a) (mem b)) [
  | yes same ↦
      let equal : (mem a == mem b) ≡ true = ground arith in
      let (to, from) = memcmp-zero_iff n mem (a + 1) (b + 1) in
      rw equal ((λ e. (same, to e)), (λ s. from s.1))
  | no ne ↦
      let differ : (mem a == mem b) ≡ false = ground arith in
      rw differ (
        (λ e. absurd (ground (arith, difference-zero (mem a) (mem b), ap is_zero e))),
        (λ s. absurd (ne s.0)),
      )
]
