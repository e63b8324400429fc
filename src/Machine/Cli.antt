-- ===== src/Machine/Cli.antt =====
-- arch/x86_64/cli.c: the command line of the kernel.
pub mod Number
pub mod Words
pub mod Commands
pub mod Keys
mod Tests
use ggmk.Base.{
  ℕ, zero, suc, ◌+◌, ◌-◌, ◌*◌, ◌%◌, ◌^◌, Bool, true, false, Option, none, some, List, [], ◌∷◌, ◌++◌,
  codes, length, get_elem?, ◌==◌, ◌||◌, ◌&&◌, ltb, leb, if◌then◌else◌, ◌>>=◌, bit_or,
}
use ggmk.Machine.Serial.{Arg, text, kprintf}

-- the loops of `parse_u64`, with what they do at a digit
unfoldable pub read_digits : (ℕ → ℕ → Option ℕ) → ℕ → List ℕ → Option ℕ
read_digits digit val [] = some val
read_digits digit val (c ∷ s) = digit val c >>= λ val'. read_digits digit val' s

abbrev pub read_decimal : ℕ → ℕ → Option ℕ
read_decimal val c =
    if ltb c b'0' || ltb b'9' c then none else some ((val * 10 + (c - b'0')) % 2 ^ 64)

abbrev pub hex_value : ℕ → Option ℕ
hex_value c =
    if leb b'0' c && leb c b'9'
    then some (c - b'0')
    else if leb b'a' c && leb c b'f'
    then some (c - b'a' + 10)
    else if leb b'A' c && leb c b'F'
    then some (c - b'A' + 10)
    else none

abbrev pub read_hex : ℕ → ℕ → Option ℕ
read_hex val c = hex_value c >>= λ d. some (bit_or (val * 16 % 2 ^ 64) d)

-- what `parse_u64` does behind the prefix
abbrev pub parse_hex : List ℕ → Option ℕ
parse_hex [] = none
parse_hex (c ∷ s) = read_digits read_hex 0 (c ∷ s)

-- `parse_u64`: `none` if it sets `*ok` to 0
unfoldable pub parse_u64 : List ℕ → Option ℕ
unfolding read_digits
parse_u64 [] = none
parse_u64 (c ∷ []) = read_digits read_decimal 0 (c ∷ [])
parse_u64 (c ∷ x ∷ s) =
    if c == b'0' && (x == b'x' || x == b'X')
    then parse_hex s
    else read_digits read_decimal 0 (c ∷ x ∷ s)

-- `str_eq`
unfoldable pub str_eq : List ℕ → List ℕ → Bool
str_eq [] [] = true
str_eq [] (b ∷ t) = false
str_eq (a ∷ s) [] = false
str_eq (a ∷ s) (b ∷ t) = if a == b then str_eq s t else false

-- `str_len`
abbrev pub str_len : List ℕ → ℕ
str_len s = length s

-- `CLI_LINE_MAX`, `CLI_ARGC_MAX`
abbrev pub line_max : ℕ
line_max = 256

abbrev pub argc_max : ℕ
argc_max = 8

-- the names of `commands`
abbrev pub commands : List (List ℕ)
commands =
    codes "help"
    ∷ codes "cpu"
    ∷ codes "mem"
    ∷ codes "heap"
    ∷ codes "map"
    ∷ codes "pci"
    ∷ codes "blkcap"
    ∷ codes "blkread"
    ∷ codes "blkwrite"
    ∷ codes "tasks"
    ∷ codes "mod"
    ∷ codes "metrics"
    ∷ codes "uptime"
    ∷ codes "halt"
    ∷ codes "reboot"
    ∷ []

abbrev pub is_blank : ℕ → Bool
is_blank c = c == 32 || c == 9

-- a byte more of the token that the line is in, and a token that begins with it
abbrev pub in_token : ℕ → List ℕ × List (List ℕ) → List ℕ × List (List ℕ)
in_token c (token, more) = (c ∷ token, more)

abbrev pub new_token : ℕ → List ℕ × List (List ℕ) → List ℕ × List (List ℕ)
new_token c (token, more) = ([], (c ∷ token) ∷ more)

-- The loop of `cli_dispatch`, with room for `room` more tokens: what the token that the line is in still has,
-- and the tokens behind it. With no room left the loop ends, and that token has the rest of the line.
unfoldable pub tokens : ℕ → Bool → List ℕ → List ℕ × List (List ℕ)
tokens room inside [] = ([], [])
tokens zero inside (c ∷ line) = (c ∷ line, [])
tokens (suc room) true (c ∷ line) =
    let blank : List ℕ × List (List ℕ) = ([], (tokens (suc room) false line).1) in
    let more = in_token c (tokens (suc room) true line) in if is_blank c then blank else more
tokens (suc room) false (c ∷ line) =
    let blank = tokens (suc room) false line in
    let token = new_token c (tokens room true line) in if is_blank c then blank else token

-- `argv` of `cli_dispatch`
abbrev pub argv : List ℕ → List (List ℕ)
argv line = (tokens argc_max false line).1

-- the loop of `cli_dispatch` over the commands, from number `i` on
unfoldable pub find_command : ℕ → List (List ℕ) → List ℕ → Option ℕ
unfolding str_eq
find_command i [] name = none
find_command i (c ∷ cs) name = if str_eq name c then some i else find_command (suc i) cs name

-- the line buffer up to `cli_pos`, and the static variables of the loop; `world` is the rest of the kernel
pub record Cli (W : Type 0) : Type 0 where
  pub line : List ℕ
  pub last_was_cr : Bool
  pub running : Bool
  pub world : W

-- `cli_prompt`
abbrev pub prompt : List ℕ
prompt = codes "ggmk> "

-- all but the last of a list
unfoldable pub init {ℓ} : {A : Type ℓ} → List A → List A
init [] = []
init (x ∷ []) = []
init (x ∷ y ∷ xs) = x ∷ init (y ∷ xs)

-- The commands are an argument: the world after one, what it wrote, and whether the loop is to go on.
module _ {W : Type 0} (call : ℕ → List (List ℕ) → W → W × List ℕ × Bool) where
  abbrev pub call_found : List (List ℕ) → List ℕ → Option ℕ → W → Option (W × List ℕ × Bool)
  call_found args name none w =
      kprintf (codes "Unknown command: %s (type 'help')\n") (text (some name) ∷ []) >>= λ out.
      some (w, out, true)
  call_found args name (some i) w = some (call i args w)

  abbrev pub call_named : List (List ℕ) → W → Option (W × List ℕ × Bool)
  call_named [] w = some (w, [], true)
  call_named (name ∷ args) w = call_found (name ∷ args) name (find_command 0 commands name) w

  -- `cli_dispatch`
  unfoldable pub dispatch : List ℕ → W → Option (W × List ℕ × Bool)
  unfolding find_command
  dispatch line w = call_named (argv line) w

  -- the state and the output behind a line
  abbrev pub after_line : Cli W → Bool → W × List ℕ × Bool → Cli W × List ℕ
  after_line s is_cr (w, out, goes_on) = (
    record { line = []; last_was_cr = is_cr; running = goes_on; world = w },
    13 ∷ 10 ∷ (out ++ (if goes_on then prompt else [])),
  )

  -- the loop of `cli_run` at a byte
  unfoldable pub key : Cli W → ℕ → Option (Cli W × List ℕ)
  key s ch =
      let is_cr = ch == 13 in
      let skipped : Cli W × List ℕ = (record s { last_was_cr = false }, []) in
      let entered = dispatch s.line s.world >>= λ r. some (after_line s is_cr r) in
      let erased : Cli W × List ℕ =
        (if ltb 0 (length s.line)
          then (record s { line = init s.line; last_was_cr = is_cr }, 8 ∷ 32 ∷ 8 ∷ [])
          else (record s { last_was_cr = is_cr }, [])) in
      let typed : Cli W × List ℕ =
        (if ltb (length s.line) (line_max - 1)
          then (record s { line = s.line ++ ch ∷ []; last_was_cr = is_cr }, ch ∷ [])
          else (record s { last_was_cr = is_cr }, [])) in
      if ch == 10 && s.last_was_cr
      then some skipped
      else if ch == 13 || ch == 10
      then entered
      else if ch == 8 || ch == 0x7f
      then some erased
      else if leb 0x20 ch && ltb ch 0x7f
      then some typed
      else some (record s { last_was_cr = is_cr }, [])

  -- the loop of `cli_run` over the bytes that come in
  unfoldable pub keys : Cli W → List ℕ → Option (Cli W × List ℕ)
  keys s [] = some (s, [])
  keys s (ch ∷ chs) =
      let next = λ (r : Cli W × List ℕ). (keys r.0 chs >>= λ r'. some (r'.0, r.1 ++ r'.1)) in
      let more = key s ch >>= next in if s.running then more else some (s, [])
