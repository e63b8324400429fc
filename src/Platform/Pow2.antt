-- ===== src/Platform/Pow2.antt =====
-- What `gmk_is_power_of_two` decides.
use mathlib.Core.WellFounded
use native.Mathlib.Nat.{pow-suc, mod_self}
use ggmk.Base.{
  ℕ, suc, ◌-◌, ◌/◌, ◌%◌, ◌<◌, ◌≡◌, ◌≢◌, ◌↔◌, true, false, Bool-cases, inl, inr, arith, bit_and,
  lt_wf, ℕ_discrete,
}
use ggmk.Bits.{IsPow2, bit_and-digit, bit_and-mask, bit_and_self, zero-lt-pow2}
use ggmk.Platform.{is_power_of_two}

abbrev Clears : ℕ → Type 0
Clears n = n ≢ 0 → bit_and n (n - 1) ≡ 0 → IsPow2 n

Clears-step : (n : ℕ) → ((m : ℕ) → m < n → Clears m) → Clears n
Clears-step n ih pos clear = elim (ℕ_discrete (n % 2) 0) [
  | yes even ↦
      let lower : (n - 1) / 2 ≡ n / 2 - 1 = omega arith in
      let clear' : bit_and (n / 2) (n / 2 - 1) ≡ 0 =
        rw (← lower) (omega (arith, bit_and-digit n (n - 1))) in
      let half = ih (n / 2) (omega arith) (omega arith) clear' in
      record {
        exponent = suc half.exponent;
        power = omega (arith, pow-suc 2 half.exponent, half.power);
      }
  | no odd ↦
      let lower : (n - 1) / 2 ≡ n / 2 = omega arith in
      let raw : bit_and (n / 2) ((n - 1) / 2) ≡ 0 = omega (arith, bit_and-digit n (n - 1)) in
      let none : bit_and (n / 2) (n / 2) ≡ 0 = rw lower at raw in
      record { exponent = 0; power = omega (arith, bit_and_self (n / 2), none) }
]

-- The bits of a number are cleared by those of its predecessor only at a power of two.
pred-Clears : (x : ℕ) → Clears x
pred-Clears x = WellFounded.induction lt_wf {C = Clears} x Clears-step

pow2-clears : (x : ℕ) → IsPow2 x → bit_and x (x - 1) ≡ 0
pow2-clears x p = rw (p.power, bit_and-mask, mod_self)

-- `gmk_is_power_of_two` holds of a number exactly when it is `2 ^ k` for some `k`.
pub is_power_of_two_iff : (x : ℕ) → (is_power_of_two x ≡ true) ↔ IsPow2 x
unfolding is_power_of_two
is_power_of_two_iff x = (
  λ h. pred-Clears x (ground arith) (ground arith),
  λ p. ground (arith, pow2-clears x p, zero-lt-pow2 p.exponent, p.power),
)

pub is_power_of_two-ne : (x : ℕ) → ¬ IsPow2 x → is_power_of_two x ≡ false
is_power_of_two-ne x h = elim (Bool-cases (is_power_of_two x)) [
  | inl e ↦ absurd (h ((is_power_of_two_iff x).0 e))
  | inr e ↦ e
]
