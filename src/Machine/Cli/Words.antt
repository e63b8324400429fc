-- ===== src/Machine/Cli/Words.antt =====
-- `str_eq` and the tokens of `cli_dispatch` of arch/x86_64/cli.c.
use ggmk.Base.{
  ℕ, zero, suc, ◌≤◌, ◌<◌, ◌≡◌, ◌↔◌, ◌∙◌, refl, sym, ap, Bool, true, false, List, [], ◌∷◌, ◌++◌,
  arith, length,
}
use mathlib.Core.List.{append-nil}
use ggmk.Machine.Cli.{str_eq, is_blank, in_token, new_token, tokens}

-- str_eq tells whether two strings have the same bytes.
pub str_eq_iff : (s t : List ℕ) → (str_eq s t ≡ true) ↔ (s ≡ t)
unfolding str_eq
str_eq_iff [] [] = ground arith
str_eq_iff [] (b ∷ t) = ground arith
str_eq_iff (a ∷ s) [] = ground arith
str_eq_iff (a ∷ s) (b ∷ t) = ground (arith, str_eq_iff s t)

-- printable and no blank
abbrev pub AllPrintable : List ℕ → Type 0
AllPrintable [] = Unit {0}
AllPrintable (c ∷ s) = (0x20 < c) × (c < 0x7f) × AllPrintable s

abbrev pub AllWords : List (List ℕ) → Type 0
AllWords [] = Unit {0}
AllWords (w ∷ ws) = (0 < length w) × AllPrintable w × AllWords ws

-- the words with a space between two
unfoldable pub unwords : List (List ℕ) → List ℕ
unwords [] = []
unwords (w ∷ []) = w
unwords (w ∷ v ∷ ws) = w ++ 32 ∷ unwords (v ∷ ws)

not_blank : (c : ℕ) → 0x20 < c → is_blank c ≡ false
not_blank c lo = ground arith

tokens-full : (inside : Bool) (line : List ℕ) → tokens 0 inside line ≡ (line, [])
unfolding tokens
tokens-full inside [] = refl
tokens-full inside (c ∷ line) = refl

tokens-word :
    (room : ℕ) (w rest : List ℕ) (ts : List (List ℕ))
    → AllPrintable w
    → tokens (suc room) true rest ≡ ([], ts)
    → tokens (suc room) true (w ++ rest) ≡ (w, ts)
unfolding tokens
tokens-word room [] rest ts printable h = h
tokens-word room (c ∷ w) rest ts (lo, hi, printable) h =
    rw (not_blank c lo) (ap (in_token c) (tokens-word room w rest ts printable h))

tokens-last : (room : ℕ) (w : List ℕ) → AllPrintable w → tokens room true w ≡ (w, [])
unfolding tokens
tokens-last zero w printable = tokens-full true w
tokens-last (suc room) w printable =
    ap (tokens (suc room) true) (sym (append-nil w)) ∙ tokens-word room w [] [] printable refl

-- The tokens of words are the words, if there is room for them.
pub tokens-unwords :
    (room : ℕ) (ws : List (List ℕ))
    → AllWords ws
    → length ws ≤ room
    → tokens room false (unwords ws) ≡ ([], ws)
unfolding tokens unwords
tokens-unwords room [] words few = refl
tokens-unwords zero (w ∷ ws) words few = absurd (omega arith)
tokens-unwords (suc room) ([] ∷ ws) (long, printable, words) few = absurd (omega arith)
tokens-unwords (suc room) ((c ∷ w) ∷ []) (long, (lo, hi, printable), words) few =
    rw (not_blank c lo) (ap (new_token c) (tokens-last room w printable))
tokens-unwords (suc zero) ((c ∷ w) ∷ v ∷ ws) (long, (lo, hi, printable), words) few =
    absurd (omega arith)
tokens-unwords (suc (suc room)) ((c ∷ w) ∷ v ∷ ws) (long, (lo, hi, printable), words) few =
    let rest = tokens-unwords (suc room) (v ∷ ws) words (omega arith) in
    rw (not_blank c lo) (
      ap (new_token c) (
        tokens-word room w (32 ∷ unwords (v ∷ ws)) (v ∷ ws) printable
          (ap (λ (r : List ℕ × List (List ℕ)). ([], r.1)) rest)))
