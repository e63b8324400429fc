-- ===== src/Bits/Masks.antt =====
-- Masks that clear the low bits of a number.
use native.Mathlib.Nat.{pow-succ', div-div-eq-div-mul}
use ggmk.Base.{ℕ, zero, suc, ◌-◌, ◌*◌, ◌/◌, ◌%◌, ◌^◌, ◌<◌, ◌≡◌, ◌∙◌, ap, sym, arith, bit_and}
use ggmk.Bits.{bit_and-mask, bit_and-digit}

-- a mask without its low bits
pub bit_and-shifted : (k a m : ℕ) → bit_and a (m * 2 ^ k) ≡ bit_and (a / 2 ^ k) m * 2 ^ k
bit_and-shifted zero a m =
    let e : m * 2 ^ 0 ≡ m = omega arith in
    let e' : a / 2 ^ 0 ≡ a = omega arith in rw (e, e') (omega arith)
bit_and-shifted (suc k) a m =
    let half : m * 2 ^ suc k ≡ 2 * (m * 2 ^ k) = rw (pow-succ' 2 k) (grind arith) in
    let even : 2 * (m * 2 ^ k) / 2 ≡ m * 2 ^ k = omega arith in
    let parity : 2 * (m * 2 ^ k) % 2 ≡ 0 = omega arith in
    let shift : a / 2 / 2 ^ k ≡ a / 2 ^ suc k =
      div-div-eq-div-mul a 2 (2 ^ k) ∙ ap (λ (n : ℕ). a / n) (sym (pow-succ' 2 k)) in
    let below : bit_and (a / 2) (m * 2 ^ k) ≡ bit_and (a / 2 ^ suc k) m * 2 ^ k =
      bit_and-shifted k (a / 2) m ∙ ap (λ (n : ℕ). bit_and n m * 2 ^ k) shift in
    let digit = bit_and-digit a (2 * (m * 2 ^ k)) in
    let whole : bit_and a (2 * (m * 2 ^ k)) ≡ 2 * (bit_and (a / 2 ^ suc k) m * 2 ^ k) =
      digit ∙ rw (even, parity, below) (omega arith) in
    let double : 2 * (bit_and (a / 2 ^ suc k) m * 2 ^ k) ≡ bit_and (a / 2 ^ suc k) m * 2 ^ suc k =
      rw (pow-succ' 2 k) (grind arith) in
    ap (λ (n : ℕ). bit_and a n) half ∙ whole ∙ double

-- `x & ~0xFFF` in 64 bits rounds down to a multiple of 4096.
pub bit_and-align4096 : (x : ℕ) → x < 2 ^ 64 → bit_and x (2 ^ 64 - 4096) ≡ x / 4096 * 4096
bit_and-align4096 x small =
    let shifted : bit_and x ((2 ^ 52 - 1) * 2 ^ 12) ≡ bit_and (x / 2 ^ 12) (2 ^ 52 - 1) * 2 ^ 12 =
      bit_and-shifted 12 x (2 ^ 52 - 1) in
    let mask = bit_and-mask 52 (x / 2 ^ 12) in omega (arith, shifted, mask)
