-- ===== src/Platform.antt =====
-- The inline helpers of include/ggmk/platform.h that compute. The atomics and
-- `gmk_tsc` are not here: the atomics are written out where they are used.
pub mod Pow2
pub mod NextPow2
mod Tests
use ggmk.Base.{ℕ, ◌-◌, ◌/◌, ◌^◌, Bool, not, ◌&&◌, ◌==◌, bit_and, bit_or, add32, leb, if◌then◌else◌}

-- `gmk_is_power_of_two`. At 0, where `x - 1` would wrap, the first test has decided.
unfoldable pub is_power_of_two : ℕ → Bool
is_power_of_two x = not (x == 0) && (bit_and x (x - 1) == 0)

-- `x | x >> k`
abbrev pub smear : ℕ → ℕ → ℕ
smear k x = bit_or x (x / 2 ^ k)

-- `gmk_next_pow2`
unfoldable pub next_pow2 : ℕ → ℕ
next_pow2 x =
    if leb x 1 then 1 else add32 (smear 16 (smear 8 (smear 4 (smear 2 (smear 1 (x - 1)))))) 1
