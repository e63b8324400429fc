-- ===== src/Bits.antt =====
-- `&` and `|` of the C code where they stand for arithmetic: a mask of low bits is a remainder,
-- and the `|` of two fields that do not overlap is a sum.
mod Digits
pub mod Wrap
pub mod Bit
pub mod Masks
pub use Digits.{bit_and-digit, bit_or-digit}
use mathlib.Core.WellFounded
use Prim.Native.Nat.{max}
use native.Mathlib.Nat.{pow-suc, div-add-mod, mod-lt}
use ggmk.Base.{
  ℕ, zero, suc, ◌≤◌, ◌+◌, ◌-◌, ◌*◌, ◌/◌, ◌%◌, ◌^◌, ◌<◌, ◌≡◌, refl, ap, bit_and, bit_or, arith,
  lt_wf, mod_unique, sym, min,
}

-- `c` is a power of two.
pub record IsPow2 (c : ℕ) : Type 0 where
  pub exponent : ℕ
  pub power : c ≡ 2 ^ exponent

pub bit_and-zero : (a : ℕ) → bit_and a 0 ≡ 0
bit_and-zero a = WellFounded.induction lt_wf {C = λ n. bit_and n 0 ≡ 0} a λ n ih. half n ih
  where
    half : (n : ℕ) → ((m : ℕ) → m < n → bit_and m 0 ≡ 0) → bit_and n 0 ≡ 0
    half zero ih = refl
    half (suc n) ih = omega (arith, bit_and-digit (suc n) 0, ih (suc n / 2) (omega arith))

pub bit_or-zero : (a : ℕ) → bit_or a 0 ≡ a
bit_or-zero a = WellFounded.induction lt_wf {C = λ n. bit_or n 0 ≡ n} a λ n ih. half n ih
  where
    half : (n : ℕ) → ((m : ℕ) → m < n → bit_or m 0 ≡ m) → bit_or n 0 ≡ n
    half zero ih = refl
    half (suc n) ih = omega (arith, bit_or-digit (suc n) 0, ih (suc n / 2) (omega arith))

pub zero-lt-pow2 : (k : ℕ) → 0 < 2 ^ k
zero-lt-pow2 zero = omega arith
zero-lt-pow2 (suc k) = omega (arith, pow-suc 2 k, zero-lt-pow2 k)

-- `a & (2 ^ k - 1)` is the remainder of `a` by `2 ^ k`.
pub bit_and-mask : (k a : ℕ) → bit_and a (2 ^ k - 1) ≡ a % 2 ^ k
bit_and-mask zero a = rw bit_and-zero (omega arith)
bit_and-mask (suc k) a = rw (bit_and-digit, double, lower, bit_and-mask k (a / 2)) whole
  where
    double : 2 ^ suc k ≡ 2 * 2 ^ k
    double = omega (arith, pow-suc 2 k)

    lower : (2 * 2 ^ k - 1) / 2 ≡ 2 ^ k - 1
    lower = omega (arith, zero-lt-pow2 k)

    whole : a / 2 % 2 ^ k * 2 + min (a % 2) ((2 * 2 ^ k - 1) % 2) ≡ a % (2 * 2 ^ k)
    whole = sym (
        mod_unique a (2 * 2 ^ k) (a / 2 / 2 ^ k) _
          (ground (arith, div-add-mod (a / 2) (2 ^ k), zero-lt-pow2 k))
          (ground (arith, mod-lt (a / 2) (zero-lt-pow2 k))))

-- `(q << k) | r` is a sum where `r` has `k` bits at most.
pub bit_or-fields : (k q r : ℕ) → r < 2 ^ k → bit_or (q * 2 ^ k) r ≡ q * 2 ^ k + r
bit_or-fields zero q r h = ground (arith, bit_or-zero q)
bit_or-fields (suc k) q r h = ground (
  arith,
  bit_or-digit (q * 2 ^ suc k) r,
  pow-suc 2 k,
  ap (λ (t : ℕ). q * t) (pow-suc 2 k),
  bit_or-fields k q (r / 2) (omega (arith, pow-suc 2 k)),
)

pub bit_and_self : (a : ℕ) → bit_and a a ≡ a
bit_and_self a = WellFounded.induction lt_wf {C = λ n. bit_and n n ≡ n} a λ n ih. half n ih
  where
    half : (n : ℕ) → ((m : ℕ) → m < n → bit_and m m ≡ m) → bit_and n n ≡ n
    half zero ih = refl
    half (suc n) ih = omega (arith, bit_and-digit (suc n) (suc n), ih (suc n / 2) (omega arith))

-- An `|` with a number of `k` bits leaves the bits above, and is no less than it below them.
pub bit_or-low :
    (k q r s : ℕ)
    → r < 2 ^ k
    → s < 2 ^ k
    → (q * 2 ^ k + s ≤ bit_or (q * 2 ^ k + r) s) × (bit_or (q * 2 ^ k + r) s < q * 2 ^ k + 2 ^ k)
bit_or-low zero q r s p h =
    let none : r ≡ 0 = omega arith in
    let none' : s ≡ 0 = omega arith in rw (none, none') (omega (arith, bit_or-zero (q * 1 + 0)))
bit_or-low (suc k) q r s p h =
    let double : 2 ^ suc k ≡ 2 * 2 ^ k = omega (arith, pow-suc 2 k) in
    let whole : q * 2 ^ suc k ≡ q * 2 ^ k * 2 = ground (arith, ap (λ (t : ℕ). q * t) double) in
    let half : (q * 2 ^ suc k + r) / 2 ≡ q * 2 ^ k + r / 2 = omega (arith, whole) in
    let ih = bit_or-low k q (r / 2) (s / 2) (omega (arith, double)) (omega (arith, double)) in
    let digit : bit_or (q * 2 ^ suc k + r) s
        ≡ bit_or (q * 2 ^ k + r / 2) (s / 2) * 2 + max ((q * 2 ^ suc k + r) % 2) (s % 2) =
      rw half at (bit_or-digit (q * 2 ^ suc k + r) s) in
    ground (arith, whole, double, ih.0, ih.1, digit)
