-- ===== src/Bits/Digits.antt =====
-- One equation for the lowest binary digit of `&` and `|`, from the recursion with fuel by which
-- the native operations are given.
use Prim.Native.Nat.{digits, bitwise, max, bit_and-bitwise, bit_or-bitwise}
use ggmk.Base.{ℕ, zero, suc, ◌+◌, ◌*◌, ◌/◌, ◌%◌, ◌≤◌, ◌≡◌, refl, bit_and, bit_or, min, arith}

module _ (rest : ℕ → ℕ) (digit : ℕ → ℕ → ℕ) where
  -- Fuel beyond the first number is not used. `k` bounds the fuel.
  spare_fuel : (k n a b : ℕ) → n ≤ k → a ≤ n → digits rest digit n a b ≡ bitwise rest digit a b
  spare_fuel k zero zero b p q = refl
  spare_fuel k (suc n) zero b p q = refl
  spare_fuel k zero (suc a) b p q = elim q [ ]
  spare_fuel zero (suc n) (suc a) b p q = elim p [ ]
  spare_fuel (suc k) (suc n) (suc a) b p q =
      let long = spare_fuel k n (suc a / 2) (b / 2) (omega arith) (omega arith) in
      let short = spare_fuel k a (suc a / 2) (b / 2) (omega arith) (omega arith) in
      omega (arith, long, short)

  lowest_digit :
      (a b : ℕ)
      → bitwise rest digit (suc a) b
        ≡ bitwise rest digit (suc a / 2) (b / 2) * 2 + digit (suc a % 2) (b % 2)
  lowest_digit a b = omega (arith, spare_fuel a a (suc a / 2) (b / 2) (omega arith) (omega arith))

pub bit_and-digit : (a b : ℕ) → bit_and a b ≡ bit_and (a / 2) (b / 2) * 2 + min (a % 2) (b % 2)
bit_and-digit zero b = simp bit_and-bitwise (omega arith)
bit_and-digit (suc a) b = simp bit_and-bitwise (lowest_digit (λ _. 0) min a b)

pub bit_or-digit : (a b : ℕ) → bit_or a b ≡ bit_or (a / 2) (b / 2) * 2 + max (a % 2) (b % 2)
bit_or-digit zero b = simp bit_or-bitwise (omega arith)
bit_or-digit (suc a) b = simp bit_or-bitwise (lowest_digit (λ x. x) max a b)
