-- ===== src/Machine/Paging/Entries.antt =====
-- The bits of an entry of a page table.
use ggmk.Base.{ℕ, ◌+◌, ◌*◌, ◌/◌, ◌^◌, ◌<◌, ◌≡◌, ◌∙◌, refl, ap, true, false, arith, bit_and, bit_or}
use ggmk.Bits.{bit_and-mask, bit_or-fields, bit_or-digit}
use ggmk.Bits.Masks.{bit_and-shifted, bit_and-align4096}
use ggmk.Machine.Paging.{is_present, is_huge, frame}

pub frame_lem : (e : ℕ) → e < 2 ^ 64 → frame e ≡ e / 4096 * 4096
frame_lem e small = bit_and-align4096 e small

-- the entry of a new table
abbrev pub table_entry : ℕ → ℕ
table_entry phys = bit_or (bit_or phys 1) 2

table_entry_lem : (k : ℕ) → table_entry (k * 4096) ≡ k * 4096 + 3
table_entry_lem k =
    let low = bit_or-fields 12 k 1 (omega arith) in
    let high = bit_or-fields 11 k 1 (omega arith) in
    let digit = bit_or-digit (k * 4096 + 1) 2 in
    let half : (k * 4096 + 1) / 2 ≡ k * 2 ^ 11 = omega arith in
    let one : bit_or (k * 4096) 1 ≡ k * 4096 + 1 = low in
    let two : bit_or (k * 4096 + 1) 2 ≡ k * 4096 + 3 = omega (arith, rw half at digit, high) in
    ap (λ (n : ℕ). bit_or n 2) one ∙ two

pub frame-table_entry : (k : ℕ) → k < 2 ^ 52 → frame (table_entry (k * 4096)) ≡ k * 4096
frame-table_entry k small =
    rw table_entry_lem (frame_lem (k * 4096 + 3) (omega arith) ∙ omega arith)

pub is_present-table_entry : (k : ℕ) → is_present (table_entry (k * 4096)) ≡ true
is_present-table_entry k =
    let odd : bit_and (k * 4096 + 3) 1 ≡ 1 = omega (arith, bit_and-mask 1 (k * 4096 + 3)) in
    rw (table_entry_lem, odd) refl

pub is_huge-table_entry : (k : ℕ) → is_huge (table_entry (k * 4096)) ≡ false
is_huge-table_entry k =
    let shifted : bit_and (k * 4096 + 3) (1 * 2 ^ 7) ≡ bit_and ((k * 4096 + 3) / 2 ^ 7) 1 * 2 ^ 7 =
      bit_and-shifted 7 (k * 4096 + 3) 1 in
    let clear : bit_and (k * 4096 + 3) 0x80 ≡ 0 =
      omega (arith, shifted, bit_and-mask 1 ((k * 4096 + 3) / 2 ^ 7)) in
    rw (table_entry_lem, clear) refl
