-- ===== src/Machine/Serial.antt =====
-- arch/x86_64/serial.c: what `kprintf` writes. The bytes that go to the port are a list, a string is the
-- list of its bytes before the NUL, and a number of 64 bits is its bit pattern. `none` is a read behind the
-- end of the format or of the arguments, or a write behind the end of a buffer.
mod Tests
use ggmk.Base.{
  ℕ, zero, suc, ◌+◌, ◌-◌, ◌/◌, ◌%◌, ◌^◌, Bool, true, false, Option, none, some, List, [], ◌∷◌, ◌++◌,
  ◌==◌, ltb, leb, if◌then◌else◌, ◌>>=◌,
}
use mathlib.Core.List.{reverse}

-- the loop of `serial_puts` at a byte, and of `kprintf` at a byte of the format
abbrev pub put_text : ℕ → List ℕ
put_text c = if c == 10 then 13 ∷ c ∷ [] else c ∷ []

-- `serial_puts`
unfoldable pub puts : List ℕ → List ℕ
puts [] = []
puts (c ∷ s) = put_text c ++ puts s

-- the digits of a number from the last on, in a buffer with room for `room` of them
unfoldable pub fill : ℕ → (ℕ → ℕ) → ℕ → ℕ → Option (List ℕ)
fill base digit zero val = if val == 0 then some [] else none
fill base digit (suc room) val =
    let rest = fill base digit room (val / base) >>= λ ds. some (digit (val % base) ∷ ds) in
    if val == 0 then some [] else rest

-- a digit of `print_uint64`, and of `print_hex64`
abbrev pub decimal_digit : ℕ → ℕ
decimal_digit d = b'0' + d

abbrev pub hex_digit : ℕ → ℕ
hex_digit d = if ltb d 10 then b'0' + d else b'a' + (d - 10)

-- `print_uint64`, with its buffer of 21 bytes
unfoldable pub print_uint64 : ℕ → Option (List ℕ)
print_uint64 val =
    if val == 0 then some (b'0' ∷ []) else fill 10 decimal_digit 21 val >>= λ ds. some (reverse ds)

-- `print_int64`
unfoldable pub print_int64 : ℕ → Option (List ℕ)
unfolding print_uint64
print_int64 val =
    if ltb val (2 ^ 63)
    then print_uint64 val
    else print_uint64 (2 ^ 64 - val) >>= λ out. some (b'-' ∷ out)

-- `print_hex64`, with its buffer of 17 bytes
unfoldable pub print_hex64 : ℕ → Option (List ℕ)
print_hex64 val =
    if val == 0 then some (b'0' ∷ []) else fill 16 hex_digit 17 val >>= λ ds. some (reverse ds)

-- an argument of `kprintf`: a string, which may be NULL, or a number of 32 or 64 bits
pub data Arg : Type 0 where
  text : Option (List ℕ) → Arg
  word : ℕ → Arg

-- an `int` or an `unsigned int` of a word, in 64 bits
abbrev pub signed_word : Bool → ℕ → ℕ
signed_word true n = n
signed_word false n =
    let low = n % 2 ^ 32 in if ltb low (2 ^ 31) then low else low + 2 ^ 64 - 2 ^ 32

abbrev pub unsigned_word : Bool → ℕ → ℕ
unsigned_word true n = n
unsigned_word false n = n % 2 ^ 32

-- the next argument as a string, and as a number
abbrev pub with_text : List Arg → (Option (List ℕ) → List ℕ) → Option (List ℕ × List Arg)
with_text (text s ∷ args) out = some (out s, args)
with_text (word n ∷ args) out = none
with_text [] out = none

abbrev pub with_word : List Arg → (ℕ → Option (List ℕ)) → Option (List ℕ × List Arg)
with_word (word n ∷ args) out = out n >>= λ bytes. some (bytes, args)
with_word (text s ∷ args) out = none
with_word [] out = none

abbrev pub or_null : Option (List ℕ) → List ℕ
or_null (some s) = s
or_null none = b'(' ∷ b'n' ∷ b'u' ∷ b'l' ∷ b'l' ∷ b')' ∷ []

-- the switch of `kprintf`, behind `%` and, if `is_long`, the letter `l`
unfoldable pub conversion : Bool → ℕ → List Arg → Option (List ℕ × List Arg)
unfolding puts print_uint64 print_int64 print_hex64
conversion is_long c args =
    if c == b's'
    then with_text args (λ s. puts (or_null s))
    else if c == b'd'
    then with_word args (λ n. print_int64 (signed_word is_long n))
    else if c == b'u'
    then with_word args (λ n. print_uint64 (unsigned_word is_long n))
    else if c == b'x'
    then with_word args (λ n. print_hex64 (unsigned_word is_long n))
    else if c == b'p'
    then with_word args (λ n. print_hex64 n >>= λ out. some (b'0' ∷ b'x' ∷ out))
    else if c == b'%'
    then some (b'%' ∷ [], args)
    else some (b'%' ∷ (if is_long then b'l' ∷ c ∷ [] else c ∷ []), args)

-- where `kprintf` is in the format: in text, behind `%`, or behind `%l`
pub data Spot : Type 0 where
  in_text : Spot
  percent : Spot
  percent_l : Spot

-- what a conversion wrote, and then the rest
abbrev pub converted : (List Arg → Option (List ℕ)) → Option (List ℕ × List Arg) → Option (List ℕ)
converted rest none = none
converted rest (some (out, args)) = rest args >>= λ more. some (out ++ more)

-- the loop of `kprintf`
unfoldable pub kprintf_from : Spot → List ℕ → List Arg → Option (List ℕ)
unfolding conversion
kprintf_from in_text [] args = some []
kprintf_from percent [] args = none
kprintf_from percent_l [] args = none
kprintf_from in_text (c ∷ fmt) args =
    let rest = kprintf_from in_text fmt args >>= λ out. some (put_text c ++ out) in
    let spec = kprintf_from percent fmt args in if c == b'%' then spec else rest
kprintf_from percent (c ∷ fmt) args =
    let long = kprintf_from percent_l fmt args in
    let short = converted (kprintf_from in_text fmt) (conversion false c args) in
    if c == b'l' then long else short
kprintf_from percent_l (c ∷ fmt) args =
    converted (kprintf_from in_text fmt) (conversion true c args)

-- `kprintf`
abbrev pub kprintf : List ℕ → List Arg → Option (List ℕ)
kprintf fmt args = kprintf_from in_text fmt args
