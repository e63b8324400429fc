-- ===== src/Machine/Cli/Tests.antt =====
-- Lines of arch/x86_64/cli.c; a command here adds its arguments to the world, and `halt` ends the loop.
use ggmk.Base.{
  if◌then◌else◌, ℕ, ◌≡◌, ◌↔◌, ◌<◌, ◌==◌, refl, Bool, true, false, not, none, some, List, [], ◌∷◌,
  ◌++◌, arith, codes, length,
}
use ggmk.Machine.Serial.{kprintf_from, word, kprintf}
use ggmk.Machine.Cli.{Cli, init, parse_u64, str_eq, argv, tokens, line_max, dispatch, key, keys}
use ggmk.Machine.Cli.Number.{parse-kprintf}
use ggmk.Machine.Cli.Commands.{Answers}
use ggmk.Machine.Cli.Words.{str_eq_iff, unwords}
use ggmk.Machine.Cli.Keys.{keys-unwords, keys-length}

parse-kprintf_example :
    ((out : List ℕ) × (kprintf (codes "%lu") (word 4096 ∷ []) ≡ some out)
      × (parse_u64 out ≡ some 4096))
    × ((out : List ℕ) × (kprintf (codes "0x%lx") (word 4096 ∷ []) ≡ some out)
        × (parse_u64 out ≡ some 4096))
parse-kprintf_example = parse-kprintf 4096 (omega arith)

-- a number of 65 bits is read as one of 64
parse_wraps : parse_u64 (codes "18446744073709551616") ≡ some 0
unfolding parse_u64
parse_wraps = refl

parse_refuses : (parse_u64 (codes "12a") ≡ none) × (parse_u64 (codes "0x") ≡ none)
unfolding parse_u64
parse_refuses = (refl, refl)

str_eq_iff_sample : (str_eq (codes "mem") (codes "mem") ≡ true) ↔ (codes "mem" ≡ codes "mem")
str_eq_iff_sample = str_eq_iff (codes "mem") (codes "mem")

abbrev World : Type 0
World = List (List ℕ)

abbrev call : ℕ → List (List ℕ) → World → World × List ℕ × Bool
call i args w = (w ++ args, codes "done", not (i == 13))

abbrev fresh : Cli World
fresh = record { line = []; last_was_cr = false; running = true; world = [] }

abbrev map_line : List (List ℕ)
map_line = codes "map" ∷ codes "0x10" ∷ []

keys-unwords_example :
    (r : World × List ℕ × Bool) × Answers call map_line [] r
    × (keys call fresh (unwords map_line ++ 13 ∷ [])
        ≡ some (
          record { line = []; last_was_cr = true; running = r.2; world = r.0 },
          unwords map_line ++ 13 ∷ 10 ∷ (r.1 ++ (if r.2 then codes "ggmk> " else [])),
        ))
unfolding unwords
keys-unwords_example = keys-unwords call map_line [] (omega arith) (omega arith) (omega arith)

-- a word that is the name of no command
no_command :
    keys call fresh (codes "mep 1\r")
    ≡ some (
      record { line = []; last_was_cr = true; running = true; world = [] },
      codes "mep 1\r\nUnknown command: mep (type 'help')\r\nggmk> ",
    )
unfolding keys key dispatch tokens init kprintf_from
no_command = refl

keys-length_sample :
    (s' : Cli World) × (out : List ℕ) × (keys call fresh (codes "halt\r") ≡ some (s', out))
    × (length s'.line < line_max)
keys-length_sample = keys-length call (codes "halt\r") fresh (omega arith)

-- an erased byte, CR with LF behind it, and nothing after `halt`
session :
    keys call fresh (codes "mex" ++ 8 ∷ codes "m\r\nhalt\rcpu\r")
    ≡ some (
      record {
        line = [];
        last_was_cr = true;
        running = false;
        world = codes "mem" ∷ codes "halt" ∷ [];
      },
      codes "mex" ++ 8 ∷ 32 ∷ 8 ∷ codes "m\r\ndoneggmk> halt\r\ndone",
    )
unfolding keys key dispatch tokens init
session = refl

-- the eighth argument has the rest of the line
ninth_word :
    argv (codes "a b c d e f g h i")
    ≡ codes "a"
      ∷ codes "b"
      ∷ codes "c"
      ∷ codes "d"
      ∷ codes "e"
      ∷ codes "f"
      ∷ codes "g"
      ∷ codes "h i"
      ∷ []
unfolding tokens
ninth_word = refl
