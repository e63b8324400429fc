-- ===== src/Mpmc/Slots.antt =====
-- Where the masked counters of src/ring_mpmc.c point.
use ggmk.Base.{
  ℕ, ◌+◌, ◌%◌, ◌<◌, ◌≡◌, ◌≢◌, sym, Bool, true, false, List, [], ◌∷◌, arith, length, mod-ne, bit_and,
}
use ggmk.Bits.Wrap.{wrap-mod, bit_and-IsPow2}
use ggmk.Mpmc.{Ring}
use ggmk.Mpmc.Holds.{Holds}

-- Some compare-and-swap of the rounds does not fail spuriously.
abbrev pub Lands : List Bool → Type 0
Lands [] = ⊥
Lands (true ∷ weak) = Lands weak
Lands (false ∷ weak) = Unit

pub Lands-ne : (weak : List Bool) → Lands weak → weak ≢ []
Lands-ne [] l = elim l [ ]
Lands-ne (b ∷ weak) l = λ e. cc

module _ {ℓ} {A : Type ℓ} {r : Ring A} {xs : List A} (h : Holds r xs) where
  open h use {pow2, small, two, masked, slots, head_word, counted, fits, filled, free}

  pub tail_slot : bit_and r.tail r.mask ≡ (r.head + length xs) % r.cap
  tail_slot = rw (masked, bit_and-IsPow2 pow2, counted, wrap-mod pow2 small)

  pub head_slot : bit_and r.head r.mask ≡ r.head % r.cap
  head_slot = rw (masked, bit_and-IsPow2 pow2)

  pub slot-ne : (i j : ℕ) → i < j → j < i + r.cap → (r.head + j) % r.cap ≢ (r.head + i) % r.cap
  slot-ne i j lt near e = mod-ne (r.head + i) (r.head + j) r.cap (omega arith) (omega arith) (sym e)
