-- ===== src/Machine/Cli/Commands.antt =====
-- The command that `cli_dispatch` of arch/x86_64/cli.c calls, and what it writes if there is none.
use mathlib.Core.Option.{some-injective}
use ggmk.Base.{
  ℕ, zero, suc, ◌+◌, ◌<◌, ◌≡◌, ◌≢◌, ◌∙◌, refl, sym, ap, Bool, true, false, Option, none, some, List,
  [], ◌∷◌, ◌++◌, arith, codes, get_elem?, Bool-cases, inl, inr, ◌==◌,
}
use ggmk.Machine.Serial.{kprintf_from, puts}
use ggmk.Machine.Cli.{str_eq, find_command, commands, call_found, call_named}
use ggmk.Machine.Cli.Words.{str_eq_iff, AllPrintable, AllWords}

-- The number is that of the first of the names that is the same, or there is none.
abbrev pub Finds : List (List ℕ) → List ℕ → Option ℕ → Type 0
Finds names name none = (j : ℕ) → get_elem? names j ≢ some name
Finds names name (some i) =
    (get_elem? names i ≡ some name) × ((j : ℕ) → j < i → get_elem? names j ≢ some name)

-- a number counted from another one
abbrev from : ℕ → Option ℕ → Option ℕ
from i none = none
from i (some k) = some (i + k)

abbrev later : Option ℕ → Option ℕ
later none = none
later (some k) = some (suc k)

from_suc : (i : ℕ) (found : Option ℕ) → from (suc i) found ≡ from i (later found)
from_suc i none = refl
from_suc i (some k) = ap some (omega arith)

from_zero : (found : Option ℕ) → from 0 found ≡ found
from_zero none = refl
from_zero (some k) = ap some (omega arith)

later-Finds :
    (c name : List ℕ) (names : List (List ℕ)) (found : Option ℕ)
    → c ≢ name
    → Finds names name found
    → Finds (c ∷ names) name (later found)
later-Finds c name names none ne f = nowhere
  where
    nowhere : (j : ℕ) → get_elem? (c ∷ names) j ≢ some name
    nowhere zero e = ne (some-injective c name e)
    nowhere (suc j) e = f j e
later-Finds c name names (some k) ne (here, before) = (here, earlier)
  where
    earlier : (j : ℕ) → j < suc k → get_elem? (c ∷ names) j ≢ some name
    earlier zero lt e = ne (some-injective c name e)
    earlier (suc j) lt e = before j (omega arith) e

find_command-Finds :
    (i : ℕ) (names : List (List ℕ)) (name : List ℕ)
    → (found : Option ℕ) × (find_command i names name ≡ from i found) × Finds names name found
unfolding find_command
find_command-Finds i [] name = (none, refl, λ j e. absurd (cc))
find_command-Finds i (c ∷ names) name = elim (Bool-cases (str_eq name c)) [
  | inl same ↦
      let e : name ≡ c = (str_eq_iff name c).0 same in
      (some 0, rw same (ap some (omega arith)), (ap some (sym e), λ j lt. absurd (omega arith)))
  | inr differs ↦
      let ne : c ≢ name =
        λ e. (let f : true ≡ false = sym ((str_eq_iff name c).1 (sym e)) ∙ differs in cc) in
      let (found, e, f) = find_command-Finds (suc i) names name in
      (later found, rw (differs, e) (from_suc i found), later-Finds c name names found ne f)
]

-- printable bytes are written as they are
puts_printable : (s : List ℕ) → AllPrintable s → puts s ≡ s
unfolding puts
puts_printable [] p = refl
puts_printable (c ∷ s) (lo, hi, p) =
    let rest = puts_printable s p in
    let flat : (c == 10) ≡ false = ground arith in rw (flat, rest) refl

module _ {W : Type 0} (call : ℕ → List (List ℕ) → W → W × List ℕ × Bool) where
  -- the world after the command of a number, what it writes, and whether the loop is to go on
  abbrev pub answer : Option ℕ → List ℕ → List (List ℕ) → W → W × List ℕ × Bool
  answer (some i) name args w = call i (name ∷ args) w
  answer none name args w =
      (w, codes "Unknown command: " ++ name ++ codes " (type 'help')\r\n", true)

  -- What words do: nothing if there are none, and otherwise what the first of the commands does that has the
  -- first word as its name.
  abbrev pub Answers : List (List ℕ) → W → W × List ℕ × Bool → Type 0
  Answers [] w r = r ≡ (w, [], true)
  Answers (name ∷ args) w r =
      (found : Option ℕ) × Finds commands name found × (r ≡ answer found name args w)

  call_found_lem :
      (found : Option ℕ) (name : List ℕ) (args : List (List ℕ)) (w : W)
      → AllPrintable name
      → call_found call (name ∷ args) name found w ≡ some (answer found name args w)
  unfolding kprintf_from
  call_found_lem none name args w p = rw (puts_printable name p) refl
  call_found_lem (some i) name args w p = refl

  pub call_named-Answers :
      (ws : List (List ℕ)) (w : W)
      → AllWords ws
      → (r : W × List ℕ × Bool) × (call_named call ws w ≡ some r) × Answers ws w r
  call_named-Answers [] w words = ((w, [], true), refl, refl)
  call_named-Answers (name ∷ args) w (long, p, words) =
      let (found, e, f) = find_command-Finds 0 commands name in
      let e' : find_command 0 commands name ≡ found = e ∙ from_zero found in
      (
        answer found name args w,
        ap (λ (x : Option ℕ). call_found call (name ∷ args) name x w) e'
            ∙ call_found_lem found name args w p,
        (found, f, refl),
      )
