-- ===== src/Alloc/Block/Index.antt =====
-- The bin that src/alloc_block.c picks is the least one whose objects are large enough.
use native.Mathlib.Nat.{pow-suc}
use ggmk.Base.{
  ℕ, zero, suc, ◌+◌, ◌-◌, ◌*◌, ◌/◌, ◌%◌, ◌^◌, ◌==◌, ◌≤◌, ◌<◌, ◌≡◌, ◌∙◌, refl, ap, false, some,
  arith, le→ltb, lt→leb, le→leb, dec_le,
}
use ggmk.Bits.Wrap.{pow2-add}
use ggmk.Platform.NextPow2.{next_pow2_lem, exponent_lt}
use ggmk.Alloc.Block.{ctz, bin_index}

ctz-pow2 : (k e : ℕ) → e < k → ctz k (2 ^ e) ≡ e
unfolding ctz
ctz-pow2 zero e lt = absurd (omega arith)
ctz-pow2 (suc k) zero lt = refl
ctz-pow2 (suc k) (suc e) lt =
    let even : (2 ^ suc e % 2 == 1) ≡ false = ground (arith, pow-suc 2 e) in
    let half : 2 ^ suc e / 2 ≡ 2 ^ e = omega (arith, pow-suc 2 e) in
    rw (even, half) (ap suc (ctz-pow2 k e (omega arith)))

-- `bin_index` of a size up to 65536 is the number of the least bin whose objects have the size.
pub bin_index_lem :
    (size : ℕ)
    → size ≤ 65536
    → (i : ℕ) × (bin_index size ≡ some i)
      × (i < 12)
      × (size ≤ 32 * 2 ^ i)
      × (0 < i → 32 * 2 ^ i < 2 * size)
unfolding bin_index
bin_index_lem size hi = elim (dec_le size 32) [
  | yes low ↦
      rw (le→leb size 32 low) (0, refl, omega arith, omega arith, (λ pos. absurd (omega arith)))
  | no more ↦
      let (p, above, below) = next_pow2_lem size (omega arith) (omega arith) in
      let e = p.exponent in
      let lower : 5 < e = exponent_lt 5 e (omega (arith, p.power)) in
      let upper : e < 17 = exponent_lt e 17 (omega (arith, p.power)) in
      let total : e ≡ 5 + (e - 5) = omega arith in
      let scale : 2 ^ e ≡ 32 * 2 ^ (e - 5) = ap (λ (t : ℕ). 2 ^ t) total ∙ pow2-add 5 (e - 5) in
      rw
        (
          lt→leb 32 size (omega arith),
          le→ltb 65536 size hi,
          p.power,
          ctz-pow2 32 e (omega arith),
          le→ltb e 5 (omega arith),
          lt→leb (e - 5) 12 (omega arith),
        )
        (e - 5, refl, omega arith, omega (arith, p.power), (λ pos. omega (arith, p.power)))
]
