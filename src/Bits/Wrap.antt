-- ===== src/Bits/Wrap.antt =====
-- A capacity that is a power of two divides 2 ^ 32: a free-running `uint32_t` counter keeps its slot
-- when it wraps.
use native.Mathlib.Nat.{
  pow-suc, pow-le-pow_right, dvd_of_mod-eq-zero, mod-mod_of_dvd, mul-mod_left, mod-add-mod,
}
use ggmk.Base.{
  ℕ, zero, suc, ◌+◌, ◌-◌, ◌*◌, ◌/◌, ◌%◌, ◌^◌, ◌≤◌, ◌<◌, ◌≡◌, arith, dec_le, u32_mod, ap, bit_and,
  sym, ◌∙◌,
}
use ggmk.Bits.{IsPow2, bit_and-digit, bit_and-mask, zero-lt-pow2}

pub pow2-add : (j k : ℕ) → 2 ^ (j + k) ≡ 2 ^ j * 2 ^ k
pow2-add zero k = rw (ap (λ (t : ℕ). 2 ^ t) (zero_left k)) (omega arith)
  where
    zero_left : (t : ℕ) → 0 + t ≡ t
    zero_left t = omega arith
pow2-add (suc j) k = rw (shift, pow-suc 2 (j + k), pow2-add j k, pow-suc 2 j) (omega arith)
  where
    shift : suc j + k ≡ suc (j + k)
    shift = omega arith

u32_mod-mod : {c : ℕ} → IsPow2 c → c < u32_mod → u32_mod % c ≡ 0
u32_mod-mod {c} p small = elim (dec_le p.exponent 32) [
  | yes h ↦
      let e = p.exponent in
      let total : 32 ≡ 32 - e + e = omega arith in
      let split : u32_mod ≡ 2 ^ (32 - e) * c =
        ap (λ (t : ℕ). 2 ^ t) total
        ∙ pow2-add (32 - e) e
        ∙ ap (λ (t : ℕ). 2 ^ (32 - e) * t) (sym p.power) in
      ap (λ (t : ℕ). t % c) split ∙ mul-mod_left (2 ^ (32 - e)) c
  | no h ↦ absurd (
      omega (
        arith,
        p.power,
        pow-le-pow_right {n = 2} (omega arith) {i = 32} {j = p.exponent} (omega arith),
      ))
]

module _ {c : ℕ} (p : IsPow2 c) (small : c < u32_mod) where
  pub wrap-mod : (x : ℕ) → x % u32_mod % c ≡ x % c
  wrap-mod x = mod-mod_of_dvd c x (dvd_of_mod-eq-zero c (u32_mod-mod p small))

  pub wrap-add-mod : (x i : ℕ) → (x % u32_mod + i) % c ≡ (x + i) % c
  wrap-add-mod x i =
      sym (mod-add-mod (x % u32_mod) c i)
      ∙ ap (λ (t : ℕ). (t + i) % c) (wrap-mod x)
      ∙ mod-add-mod x c i

pub IsPow2-pos : {c : ℕ} → IsPow2 c → 0 < c
IsPow2-pos p = omega (arith, p.power, zero-lt-pow2 p.exponent)

-- `x & mask` is the slot of the counter `x`.
pub bit_and-IsPow2 : {c : ℕ} → IsPow2 c → (x : ℕ) → bit_and x (c - 1) ≡ x % c
bit_and-IsPow2 p x = rw (p.power, bit_and-mask)

-- The largest power of two of 32 bits is 2 ^ 31.
pub IsPow2-le : {c : ℕ} → IsPow2 c → c < u32_mod → c ≤ 2 ^ 31
IsPow2-le {c} p small = elim (dec_le p.exponent 31) [
  | yes h ↦
      omega (arith, p.power, pow-le-pow_right {n = 2} (omega arith) {i = p.exponent} {j = 31} h)
  | no h ↦ absurd (
      omega (
        arith,
        p.power,
        pow-le-pow_right {n = 2} (omega arith) {i = 32} {j = p.exponent} (omega arith),
      ))
]

-- `x & ~7` in 32 bits rounds down to a multiple of 8.
pub bit_and-align8 : (x : ℕ) → x < u32_mod → bit_and x 0xffff_fff8 ≡ x / 8 * 8
bit_and-align8 x h = omega (
  arith,
  bit_and-digit x 0xffff_fff8,
  bit_and-digit (x / 2) 0x7fff_fffc,
  bit_and-digit (x / 2 / 2) 0x3fff_fffe,
  bit_and-mask 29 (x / 2 / 2 / 2),
)
