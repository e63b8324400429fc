-- ===== src/Bits/Bit.antt =====
-- Single bits of a word: a mask of one bit sets it with `|`, and its complement clears it with `&`.
use Prim.Native.Nat.{max}
use native.Mathlib.Nat.{pow-suc, pow-succ', pow-le-pow_right, div-div-eq-div-mul}
use ggmk.Base.{
  ℕ, zero, suc, ◌-◌, ◌/◌, ◌%◌, ◌^◌, ◌<◌, ◌≡◌, ◌∙◌, refl, ap, sym, bit_and, bit_or, arith, min, ◌==◌,
  if◌then◌else◌, Bool, true, not, ◌&&◌, ◌||◌,
}
use ggmk.Bits.{zero-lt-pow2, bit_and-zero}
use ggmk.Bits.Digits.{bit_and-digit, bit_or-digit}

-- bit `j` of a number
pub bit : ℕ → ℕ → ℕ
bit a zero = a % 2
bit a (suc j) = bit (a / 2) j

pub shift-bit : (a j : ℕ) → a / 2 ^ j % 2 ≡ bit a j
unfolding bit
shift-bit a zero = omega arith
shift-bit a (suc j) =
    let e : a / 2 ^ suc j ≡ a / 2 / 2 ^ j =
      ap (λ (n : ℕ). a / n) (pow-succ' 2 j) ∙ sym (div-div-eq-div-mul a 2 (2 ^ j)) in
    rw e (shift-bit (a / 2) j)

bit-bit_or : (a b j : ℕ) → bit (bit_or a b) j ≡ max (bit a j) (bit b j)
unfolding bit
bit-bit_or a b zero = omega (arith, bit_or-digit a b)
bit-bit_or a b (suc j) =
    let e : bit_or a b / 2 ≡ bit_or (a / 2) (b / 2) = omega (arith, bit_or-digit a b) in
    rw e (bit-bit_or (a / 2) (b / 2) j)

bit-bit_and : (a b j : ℕ) → bit (bit_and a b) j ≡ min (bit a j) (bit b j)
unfolding bit
bit-bit_and a b zero = omega (arith, bit_and-digit a b)
bit-bit_and a b (suc j) =
    let e : bit_and a b / 2 ≡ bit_and (a / 2) (b / 2) = omega (arith, bit_and-digit a b) in
    rw e (bit-bit_and (a / 2) (b / 2) j)

bit-lt : (a j : ℕ) → bit a j < 2
unfolding bit
bit-lt a zero = omega arith
bit-lt a (suc j) = bit-lt (a / 2) j

bit-zero : (j : ℕ) → bit 0 j ≡ 0
unfolding bit
bit-zero zero = refl
bit-zero (suc j) = bit-zero j

bit-pow : (k j : ℕ) → bit (2 ^ k) j ≡ (if k == j then 1 else 0)
unfolding bit
bit-pow zero zero = refl
bit-pow zero (suc j) = ground (arith, bit-zero j)
bit-pow (suc k) zero = ground (arith, pow-suc 2 k)
bit-pow (suc k) (suc j) =
    let e : 2 ^ suc k / 2 ≡ 2 ^ k = omega (arith, pow-suc 2 k) in rw (e, bit-pow k j) (ground arith)

-- the complement in `n` bits
bit-complement : (n a j : ℕ) → a < 2 ^ n → j < n → bit (2 ^ n - 1 - a) j ≡ 1 - bit a j
unfolding bit
bit-complement zero a j lt lo = absurd (omega arith)
bit-complement (suc n) a zero lt lo = omega (arith, pow-suc 2 n, zero-lt-pow2 n)
bit-complement (suc n) a (suc j) lt lo =
    let e : (2 ^ suc n - 1 - a) / 2 ≡ 2 ^ n - 1 - a / 2 =
      omega (arith, pow-suc 2 n, zero-lt-pow2 n) in
    rw e (bit-complement n (a / 2) j (omega (arith, pow-suc 2 n)) (omega arith))

-- the test of bit `j`
abbrev pub test : ℕ → ℕ → Bool
test a j = not (bit_and (a / 2 ^ j) 1 == 0)

test-bit : (a j : ℕ) → bit_and (a / 2 ^ j) 1 ≡ bit a j
test-bit a j =
    omega (arith, shift-bit a j, bit_and-digit (a / 2 ^ j) 1, bit_and-zero (a / 2 ^ j / 2))

pub test-set : (a k j : ℕ) → test (bit_or a (2 ^ k)) j ≡ (k == j || test a j)
test-set a k j =
    rw (test-bit (bit_or a (2 ^ k)) j, test-bit a j, bit-bit_or, bit-pow)
      (ground (arith, bit-lt a j))

pub test-clear :
    (a k j : ℕ)
    → k < 64
    → j < 64
    → test (bit_and a (2 ^ 64 - 1 - 2 ^ k)) j ≡ (not (k == j) && test a j)
test-clear a k j lk lj =
    let small : 2 ^ k < 2 ^ 64 =
      omega (arith, pow-le-pow_right {n = 2} (omega arith) {i = k} {j = 63} (omega arith)) in
    rw
      (
        test-bit (bit_and a (2 ^ 64 - 1 - 2 ^ k)) j,
        test-bit a j,
        bit-bit_and,
        bit-complement 64 (2 ^ k) j small lj,
        bit-pow,
      )
      (ground (arith, bit-lt a j))

-- the word of 64 ones
pub test-ones : (j : ℕ) → j < 64 → test (2 ^ 64 - 1) j ≡ true
test-ones j lt = rw (test-bit (2 ^ 64 - 1) j, bit-complement 64 0 j (omega arith) lt, bit-zero) refl
