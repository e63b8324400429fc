-- ===== src/Platform/NextPow2.antt =====
-- What `gmk_next_pow2` computes.
use mathlib.Core.WellFounded
use native.Mathlib.Nat.{
  mul-sub, mul_comm, pow-suc, pow-le-pow_right, div-lt_iff_lt-mul, le-div_iff_mul-le, mod-lt,
  div-add-mod', div-eq_of_lt,
}
use ggmk.Base.{
  ℕ, suc, ◌+◌, ◌-◌, ◌*◌, ◌/◌, ◌%◌, ◌^◌, ◌≤◌, ◌<◌, ◌≡◌, ◌∙◌, refl, ap, arith, add32, lt_wf, lt→leb,
  dec_le, dec_lt,
}
use ggmk.Bits.{IsPow2, bit_or-zero, bit_or-low, zero-lt-pow2}
use ggmk.Bits.Wrap.{pow2-add}
use ggmk.Platform.{smear, next_pow2}

sub-mul : (a b c : ℕ) → (a - b) * c ≡ a * c - b * c
sub-mul a b c = omega (arith, mul_comm (a - b) c, mul-sub c a b, mul_comm c a, mul_comm c b)

-- `x` has `K` bits, and the upper `m` of them are ones.
abbrev Ones : ℕ → ℕ → ℕ → Type 0
Ones K m x = (x < 2 ^ K) × (2 ^ K ≤ x + 2 ^ (K - m))

-- The lower bound of `x >> m`, with the ones of `x` down to bit `j`.
shifted_ones : (m j x : ℕ) → 2 ^ m * 2 ^ j ≤ x + 2 ^ j → 2 ^ j ≤ x / 2 ^ m + 2 ^ (j - m)
shifted_ones m j x ones = elim (dec_le m j) [
  | yes low ↦
      let whole : 2 ^ j ≡ 2 ^ m * 2 ^ (j - m) =
        ap (λ (t : ℕ). 2 ^ t) (parts low) ∙ pow2-add m (j - m) in
      let bound : (2 ^ j - 2 ^ (j - m)) * 2 ^ m ≤ x =
        grind (arith, whole, sub-mul (2 ^ j) (2 ^ (j - m)) (2 ^ m)) in
      omega (arith, (le-div_iff_mul-le {x = 2 ^ j - 2 ^ (j - m)} (zero-lt-pow2 m)).1 bound)
  | no high ↦
      let none : j - m ≡ 0 = omega arith in
      let bound : (2 ^ j - 1) * 2 ^ m ≤ x = grind (
        arith,
        sub-mul (2 ^ j) 1 (2 ^ m),
        pow-le-pow_right {n = 2} (omega arith) {i = j} {j = m} (omega arith),
      ) in
      rw none (omega (arith, (le-div_iff_mul-le {x = 2 ^ j - 1} (zero-lt-pow2 m)).1 bound))
]
  where
    parts : m ≤ j → j ≡ m + (j - m)
    parts h = omega arith

-- Each step doubles the number of ones.
smear-Ones : (n m x : ℕ) → Ones n m x → Ones n (m + m) (smear m x)
smear-Ones n m x (below, ones) = elim (dec_le n m) [
  | yes all ↦
      let none : x / 2 ^ m ≡ 0 =
        div-eq_of_lt (omega (arith, pow-le-pow_right {n = 2} (omega arith) {i = n} {j = m} all)) in
      let full : n - m ≡ 0 = omega arith in
      let full' : n - (m + m) ≡ 0 = omega arith in
      let ones' : 2 ^ n ≤ x + 1 = rw full at ones in rw (none, bit_or-zero, full') (below, ones')
  | no more ↦
      let j = n - m in
      let total : n ≡ m + j = omega arith in
      let whole : 2 ^ n ≡ 2 ^ m * 2 ^ j = ap (λ (t : ℕ). 2 ^ t) total ∙ pow2-add m j in
      let rest : n - (m + m) ≡ j - m = omega arith in
      let q = x / 2 ^ j in
      let least : 2 ^ m - 1 ≤ q =
        (le-div_iff_mul-le {x = 2 ^ m - 1} (zero-lt-pow2 j)).1
          (grind (arith, sub-mul (2 ^ m) 1 (2 ^ j))) in
      let most : q < 2 ^ m = (div-lt_iff_lt-mul (zero-lt-pow2 j)).1 (omega arith) in
      let top : q ≡ 2 ^ m - 1 = omega arith in
      let inside : x / 2 ^ m < 2 ^ j = (div-lt_iff_lt-mul (zero-lt-pow2 m)).1 (grind arith) in
      let low = bit_or-low j q (x % 2 ^ j) (x / 2 ^ m) (mod-lt x (zero-lt-pow2 j)) inside in
      let split : q * 2 ^ j + x % 2 ^ j ≡ x = div-add-mod' x (2 ^ j) in
      let low' = rw split at low in
      let shifted = shifted_ones m j x (omega arith) in
      let base : q * 2 ^ j + 2 ^ j ≡ 2 ^ n =
        grind (arith, top, whole, sub-mul (2 ^ m) 1 (2 ^ j), zero-lt-pow2 m) in
      rw rest (omega arith, omega arith)
]

-- the highest bit of a number
highest_bit : (y : ℕ) → 0 < y → (n : ℕ) × (2 ^ n ≤ y) × (y < 2 ^ suc n)
highest_bit y =
    WellFounded.induction lt_wf {C = λ y. 0 < y → (n : ℕ) × (2 ^ n ≤ y) × (y < 2 ^ suc n)} y
      λ y ih pos. elim (dec_lt 1 y) [
        | no one ↦ (0, omega arith, omega arith)
        | yes more ↦
            let (n, low, high) = ih (y / 2) (omega arith) (omega arith) in
            (suc n, omega (arith, pow-suc 2 n), omega (arith, pow-suc 2 (suc n)))
      ]

pub exponent_lt : (n k : ℕ) → 2 ^ n < 2 ^ k → n < k
exponent_lt n k h = elim (dec_lt n k) [
  | yes lt ↦ lt
  | no ge ↦
      absurd (omega (arith, pow-le-pow_right {n = 2} (omega arith) {i = k} {j = n} (omega arith)))
]

-- `gmk_next_pow2` is the least power of two that is no less than the number, from 2 to 2 ^ 31.
pub next_pow2_lem :
    (x : ℕ) → 1 < x → x ≤ 2 ^ 31 → IsPow2 (next_pow2 x) × (x ≤ next_pow2 x) × (next_pow2 x < 2 * x)
unfolding next_pow2
next_pow2_lem x lo hi =
    let (n, low, high) = highest_bit (x - 1) (omega arith) in
    let few : n < 31 = exponent_lt n 31 (omega arith) in
    let double = pow-suc 2 n in
    let less : suc n - 1 ≡ n = omega arith in
    let start : Ones (suc n) 1 (x - 1) = (high, rw less (omega arith)) in
    let s1 = smear-Ones (suc n) 1 (x - 1) start in
    let s2 = smear-Ones (suc n) 2 (smear 1 (x - 1)) s1 in
    let s4 = smear-Ones (suc n) 4 (smear 2 (smear 1 (x - 1))) s2 in
    let s8 = smear-Ones (suc n) 8 (smear 4 (smear 2 (smear 1 (x - 1)))) s4 in
    let s16 = smear-Ones (suc n) 16 (smear 8 (smear 4 (smear 2 (smear 1 (x - 1))))) s8 in
    let none : suc n - 32 ≡ 0 = omega arith in
    let ones = rw none at s16.1 in
    let top = pow-le-pow_right {n = 2} (omega arith) {i = suc n} {j = 31} (omega arith) in
    let whole : add32 (smear 16 (smear 8 (smear 4 (smear 2 (smear 1 (x - 1)))))) 1 ≡ 2 ^ suc n =
      omega (arith, s16.0) in
    rw (lt→leb 1 x lo, whole) (record { exponent = suc n; power = refl }, omega arith, omega arith)
