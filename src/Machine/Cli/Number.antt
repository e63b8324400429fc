-- ===== src/Machine/Cli/Number.antt =====
-- `parse_u64` of arch/x86_64/cli.c reads what `kprintf` of arch/x86_64/serial.c writes.
use ggmk.Base.{
  codes, ℕ, zero, suc, ◌+◌, ◌*◌, ◌/◌, ◌%◌, ◌^◌, ◌<◌, ◌≡◌, ◌∙◌, refl, ap, Option, none, some, List,
  [], ◌∷◌, ◌++◌, arith, ◌==◌, Bool-cases, Option-cases, inl, inr, ltb, ◌>>=◌, bit_or, true, false,
  ◌&&◌, ◌||◌,
}
use mathlib.Core.List.{reverse, reverse-cons, append-nil}
use native.Mathlib.Nat.{pow-suc, pow-zero, div-lt_iff_lt-mul, div-add-mod', mod-lt, div-le_self}
use mathlib.Core.Option.{some-injective}
use ggmk.Bits.{bit_or-fields}
use ggmk.Machine.Serial.{
  word, kprintf, kprintf_from, fill, decimal_digit, hex_digit, print_uint64, print_hex64,
}
use ggmk.Machine.Cli.{read_digits, read_decimal, read_hex, hex_value, parse_hex, parse_u64}

read_digits-append :
    (digit : ℕ → ℕ → Option ℕ) (val : ℕ) (s t : List ℕ)
    → read_digits digit val (s ++ t)
      ≡ (read_digits digit val s >>= λ val'. read_digits digit val' t)
unfolding read_digits
read_digits-append digit val [] t = refl
read_digits-append digit val (c ∷ s) t = elim (Option-cases (digit val c)) [
  | inl refused ↦ rw refused refl
  | inr (val', taken) ↦ rw taken (read_digits-append digit val' s t)
]

-- The digits that are written are enough for the number, and are read as it.
module _ (base : ℕ) (digit : ℕ → ℕ) (read : ℕ → ℕ → Option ℕ) (lo : 1 < base)
    (reads : (val d : ℕ)
      → d < base
      → val * base + d < 2 ^ 64
      → read val (digit d) ≡ some (val * base + d)) where
  fill-read :
      (room val : ℕ)
      → val < base ^ room
      → val < 2 ^ 64
      → (ds : List ℕ) × (fill base digit room val ≡ some ds)
        × (read_digits read 0 (reverse ds) ≡ some val)
  unfolding fill read_digits
  fill-read zero val h small =
      let none_left : val < 1 = rw (pow-zero base) at h in
      let e : (val == 0) ≡ true = ground arith in
      ([], rw e refl, ap some (let f : 0 ≡ val = ground arith in f))
  fill-read (suc room) val h small = elim (Bool-cases (val == 0)) [
    | inl done ↦ ([], rw done refl, ap some (let f : 0 ≡ val = ground arith in f))
    | inr more ↦
        let (ds, filled, read') =
          fill-read room (val / base)
            ((div-lt_iff_lt-mul (omega arith)).1 (rw (pow-suc base room) at h))
            (omega (arith, div-le_self val base)) in
        (
          digit (val % base) ∷ ds,
          rw (more, filled) refl,
          rw (reverse-cons (digit (val % base)) ds) (
              read_digits-append read 0 (reverse ds) (digit (val % base) ∷ [])
              ∙ (rw read' (
                  let step =
                    reads (val / base) (val % base) (mod-lt val (omega arith))
                      (rw (div-add-mod' val base) small) in
                  rw (step, div-add-mod' val base) refl))),
        )
  ]

decimal_reads :
    (val d : ℕ)
    → d < 10
    → val * 10 + d < 2 ^ 64
    → read_decimal val (decimal_digit d) ≡ some (val * 10 + d)
decimal_reads val d small fits =
    let low : ltb (b'0' + d) b'0' ≡ false = ground arith in
    let high : ltb b'9' (b'0' + d) ≡ false = ground arith in rw (low, high) (ap some (omega arith))

hex_value-hex_digit : (d : ℕ) → d < 16 → hex_value (hex_digit d) ≡ some d
hex_value-hex_digit d small = ground arith

hex_reads :
    (val d : ℕ) → d < 16 → val * 16 + d < 2 ^ 64 → read_hex val (hex_digit d) ≡ some (val * 16 + d)
hex_reads val d small fits =
    let wrap : val * 16 % 2 ^ 64 ≡ val * 16 = omega arith in
    rw (hex_value-hex_digit d small)
      (ap some (ap (λ (x : ℕ). bit_or x d) wrap ∙ bit_or-fields 4 val d small))

-- What is read as decimal digits has no prefix.
parse-decimal :
    (s : List ℕ) (n : ℕ) → 0 < n → read_digits read_decimal 0 s ≡ some n → parse_u64 s ≡ some n
unfolding read_digits parse_u64
parse-decimal [] n pos h = absurd (let e : 0 ≡ n = some-injective 0 n h in omega arith)
parse-decimal (c ∷ []) n pos h = h
parse-decimal (c ∷ x ∷ s) n pos h = elim (Bool-cases (c == b'0' && (x == b'x' || x == b'X'))) [
  | inl prefix ↦
      let low_c : ltb c b'0' ≡ false = ground arith in
      let high_c : ltb b'9' c ≡ false = ground arith in
      let low : ltb x b'0' ≡ false = ground arith in
      let high : ltb b'9' x ≡ true = ground arith in
      absurd (let e : none ≡ some n = rw (low_c, high_c, low, high) at h in cc)
  | inr plain ↦ rw plain h
]

parse_hex-digits :
    (s : List ℕ) (n : ℕ) → 0 < n → read_digits read_hex 0 s ≡ some n → parse_hex s ≡ some n
unfolding read_digits
parse_hex-digits [] n pos h = absurd (let e : 0 ≡ n = some-injective 0 n h in omega arith)
parse_hex-digits (c ∷ s) n pos h = h

module _ (n : ℕ) (small : n < 2 ^ 64) where
  parse-print_uint64 : (out : List ℕ) × (print_uint64 n ≡ some out) × (parse_u64 out ≡ some n)
  unfolding print_uint64 parse_u64 read_digits
  parse-print_uint64 = elim (Bool-cases (n == 0)) [
    | inl none_left ↦ (b'0' ∷ [], rw none_left refl, ap some (let e : 0 ≡ n = ground arith in e))
    | inr more ↦
        let (ds, filled, read) =
          fill-read 10 decimal_digit read_decimal (omega arith) decimal_reads 21 n (omega arith)
            small in
        (reverse ds, rw (more, filled) refl, parse-decimal (reverse ds) n (ground arith) read)
  ]

  parse-print_hex64 : (out : List ℕ) × (print_hex64 n ≡ some out) × (parse_hex out ≡ some n)
  unfolding print_hex64 read_digits
  parse-print_hex64 = elim (Bool-cases (n == 0)) [
    | inl none_left ↦ (b'0' ∷ [], rw none_left refl, ap some (let e : 0 ≡ n = ground arith in e))
    | inr more ↦
        let (ds, filled, read) =
          fill-read 16 hex_digit read_hex (omega arith) hex_reads 17 n (omega arith) small in
        (reverse ds, rw (more, filled) refl, parse_hex-digits (reverse ds) n (ground arith) read)
  ]

  -- A number that kprintf writes in decimal digits, or in hexadecimal digits behind 0x, is read as itself by
  -- parse_u64, and no buffer is overrun.
  pub parse-kprintf :
      ((out : List ℕ) × (kprintf (codes "%lu") (word n ∷ []) ≡ some out) × (parse_u64 out ≡ some n))
      × ((out : List ℕ) × (kprintf (codes "0x%lx") (word n ∷ []) ≡ some out)
          × (parse_u64 out ≡ some n))
  unfolding kprintf_from parse_u64
  parse-kprintf =
      let (out, printed, read) = parse-print_uint64 in
      let (out', printed', read') = parse-print_hex64 in
      (
        (out, rw (printed, append-nil out) refl, read),
        (b'0' ∷ b'x' ∷ out', rw (printed', append-nil out') refl, read'),
      )
