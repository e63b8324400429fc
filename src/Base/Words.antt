-- ===== src/Base/Words.antt =====
-- Machine words as native numbers, and remainders by a capacity.
use Prim.Native.Nat.{ℕ, ◌+◌, ◌-◌, ◌*◌, ◌/◌, ◌%◌, ◌^◌, ◌<◌}
use mathlib.Core.Logic.{◌≢◌}
use native.Mathlib.Nat.{div-add-mod, mul-add-mod_self_right, mod-eq_of_lt}
use mathlib.Core.Path.{◌≡◌}
use native.Mathlib.Decide.{dec_le}
use native.Mathlib.Omega.{arith}

abbrev pub u32_mod : ℕ
u32_mod = 2 ^ 32

-- `uint32_t` addition and subtraction wrap.
abbrev pub add32 : ℕ → ℕ → ℕ
add32 a b = (a + b) % u32_mod

abbrev pub sub32 : ℕ → ℕ → ℕ
sub32 a b = (a + u32_mod - b) % u32_mod

-- Two numbers less than `c` apart have different remainders by `c`.
pub mod-ne : (a b c : ℕ) → a < b → b < a + c → a % c ≢ b % c
mod-ne a b c lo hi e = elim (dec_le (b / c) (a / c)) [
  | yes p ↦ absurd (grind (arith, div-add-mod a c, div-add-mod b c))
  | no p ↦ absurd (grind (arith, div-add-mod a c, div-add-mod b c))
]

-- The remainder is the one number below `c` that a multiple of `c` takes to `a`.
pub mod_unique : (a c t s : ℕ) → a ≡ t * c + s → s < c → a % c ≡ s
mod_unique a c t s e h = rw (e, mul-add-mod_self_right, mod-eq_of_lt h)
