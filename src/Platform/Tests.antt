-- ===== src/Platform/Tests.antt =====
-- The helpers of include/ggmk/platform.h at concrete numbers.
use ggmk.Base.{◌≡◌, ◌↔◌, true, false, refl}
use ggmk.Bits.{IsPow2}
use ggmk.Platform.{is_power_of_two}
use ggmk.Platform.Pow2.{is_power_of_two_iff}

powers :
    (is_power_of_two 0 ≡ false)
    × (is_power_of_two 1 ≡ true)
    × (is_power_of_two 48 ≡ false)
    × (is_power_of_two 4096 ≡ true)
unfolding is_power_of_two
powers = (refl, refl, refl, refl)

is_power_of_two_iff_example : (is_power_of_two 64 ≡ true) ↔ IsPow2 64
is_power_of_two_iff_example = is_power_of_two_iff 64
