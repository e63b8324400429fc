-- ===== src/Machine/Cli/Keys.antt =====
-- The loop of `cli_run` of arch/x86_64/cli.c on the bytes that come in.
use ggmk.Base.{
  codes, ℕ, ◌+◌, ◌≤◌, ◌<◌, ◌≡◌, ◌∙◌, refl, ap, Bool, true, false, Option, none, some, List, [], ◌∷◌,
  ◌++◌, arith, length, length-append, if◌then◌else◌, ◌>>=◌, Bool-cases, Option-cases, inl, inr,
}
use mathlib.Core.List.{append-nil, append_assoc}
use ggmk.Machine.Serial.{kprintf_from}
use ggmk.Machine.Cli.{
  Cli, argv, init, line_max, dispatch, after_line, call_named, call_found, find_command, commands,
  key, keys, prompt,
}
use ggmk.Machine.Cli.Commands.{Answers, call_named-Answers}
use ggmk.Machine.Cli.Words.{AllPrintable, AllWords, unwords, tokens-unwords}

length-init : (xs : List ℕ) → length (init xs) ≤ length xs
unfolding init
length-init [] = omega arith
length-init (x ∷ []) = omega arith
length-init (x ∷ y ∷ xs) = omega (arith, length-init (y ∷ xs))

-- The bytes that a line may hold.
abbrev pub AllTypable : List ℕ → Type 0
AllTypable [] = Unit {0}
AllTypable (c ∷ s) = (0x20 ≤ c) × (c < 0x7f) × AllTypable s

AllTypable-append : (s t : List ℕ) → AllTypable s → AllTypable t → AllTypable (s ++ t)
AllTypable-append [] t p q = q
AllTypable-append (c ∷ s) t (lo, hi, p) q = (lo, hi, AllTypable-append s t p q)

printable-AllTypable : (s : List ℕ) → AllPrintable s → AllTypable s
printable-AllTypable [] p = tt
printable-AllTypable (c ∷ s) (lo, hi, p) = (omega arith, hi, printable-AllTypable s p)

unwords-AllTypable : (ws : List (List ℕ)) → AllWords ws → AllTypable (unwords ws)
unfolding unwords
unwords-AllTypable [] words = tt
unwords-AllTypable (w ∷ []) (long, p, words) = printable-AllTypable w p
unwords-AllTypable (w ∷ v ∷ ws) (long, p, words) =
    AllTypable-append w (32 ∷ unwords (v ∷ ws)) (printable-AllTypable w p)
      (omega arith, omega arith, unwords-AllTypable (v ∷ ws) words)

module _ {W : Type 0} (call : ℕ → List (List ℕ) → W → W × List ℕ × Bool) where
  -- The byte behind the line is in the buffer.
  key-length :
      (s s' : Cli W) (ch : ℕ) (out : List ℕ)
      → length s.line < line_max
      → key call s ch ≡ some (s', out)
      → length s'.line < line_max
  unfolding key
  key-length s s' ch out small h = elim (Option-cases (dispatch call s.line s.world)) [
    | inl panics ↦ ground (arith, length-append s.line (ch ∷ []), length-init s.line)
    | inr ((w, bytes, goes_on), e) ↦
        ground (arith, length-append s.line (ch ∷ []), length-init s.line)
  ]

  key-typed :
      (line : List ℕ) (w : W) (c : ℕ)
      → 0x20 ≤ c
      → c < 0x7f
      → length line + 1 < line_max
      → key call (record { line = line; last_was_cr = false; running = true; world = w }) c
        ≡ some (
          record { line = line ++ c ∷ []; last_was_cr = false; running = true; world = w },
          c ∷ [],
        )
  unfolding key
  key-typed line w c lo hi small = ground arith

  typed :
      (line : List ℕ) (w : W) (cs chs : List ℕ)
      → AllTypable cs
      → length line + length cs < line_max
      → keys call
          (record { line = line; last_was_cr = false; running = true; world = w })
          (cs ++ chs)
        ≡ (keys call
              (record { line = line ++ cs; last_was_cr = false; running = true; world = w })
              chs
            >>= λ r. some (r.0, cs ++ r.1))
  unfolding keys
  typed line w [] chs typable small =
      rw (append-nil line)
        (elim (Option-cases (
          keys call (record { line = line; last_was_cr = false; running = true; world = w }) chs)) [
            | inl panics ↦ rw panics refl
            | inr (r, e) ↦ rw e refl
          ])
  typed line w (c ∷ cs) chs (lo, hi, typable) small =
      rw
        (
          key-typed line w c lo hi (omega arith),
          typed (line ++ c ∷ []) w cs chs typable (omega (arith, length-append line (c ∷ []))),
          append_assoc line (c ∷ []) cs,
        )
        (elim (Option-cases (
          keys call
            (record { line = line ++ c ∷ cs; last_was_cr = false; running = true; world = w })
            chs)) [ inl panics ↦ rw panics refl | inr (r, e) ↦ rw e refl ])

  -- a line that is entered
  key-entered :
      (line : List ℕ) (w : W)
      → key call (record { line = line; last_was_cr = false; running = true; world = w }) 13 ≡ (
          dispatch call line w >>= λ r. some (
            after_line call
              (record { line = line; last_was_cr = false; running = true; world = w })
              true
              r))
  unfolding key
  key-entered line w = refl

  dispatch-unwords :
      (ws : List (List ℕ)) (w : W)
      → AllWords ws
      → length ws ≤ 8
      → dispatch call (unwords ws) w ≡ call_named call ws w
  unfolding dispatch
  dispatch-unwords ws w words few =
      ap (λ (r : List ℕ × List (List ℕ)). call_named call r.1 w) (tokens-unwords 8 ws words few)

  -- Up to eight words that are typed with a space between two, on an empty line with room for them, and entered with
  -- CR call the first command that has the first word as its name, with these words as its arguments, or, if there is
  -- none, write "Unknown command: ", the word and " (type 'help')" with CR and LF; they are echoed, with CR and LF,
  -- before what that writes, the prompt is behind it unless the command ends the loop, and the line is empty then. No words do nothing.
  pub keys-unwords :
      (ws : List (List ℕ)) (w : W)
      → AllWords ws
      → length ws ≤ 8
      → length (unwords ws) < 256
      → (r : W × List ℕ × Bool) × Answers call ws w r
        × (keys call
              (record { line = []; last_was_cr = false; running = true; world = w })
              (unwords ws ++ 13 ∷ [])
            ≡ some (
              record { line = []; last_was_cr = true; running = r.2; world = r.0 },
              unwords ws ++ 13 ∷ 10 ∷ (r.1 ++ (if r.2 then codes "ggmk> " else [])),
            ))
  unfolding keys
  keys-unwords ws w words few short =
      let ((w', out, goes_on), done, answers) = call_named-Answers call ws w words in
      (
        (w', out, goes_on),
        answers,
        typed [] w (unwords ws) (13 ∷ []) (unwords-AllTypable ws words) (omega arith)
            ∙ rw
                (
                  key-entered (unwords ws) w,
                  dispatch-unwords ws w words few,
                  done,
                  append-nil (out ++ (if goes_on then prompt else [])),
                )
                refl,
      )

  found_returns :
      (args : List (List ℕ)) (name : List ℕ) (found : Option ℕ) (w : W)
      → (r : W × List ℕ × Bool) × (call_found call args name found w ≡ some r)
  unfolding kprintf_from
  found_returns args name none w = (_, refl)
  found_returns args name (some i) w = (call i args w, refl)

  dispatch_returns :
      (line : List ℕ) (w : W) → (r : W × List ℕ × Bool) × (dispatch call line w ≡ some r)
  unfolding dispatch
  dispatch_returns line w =
      elim (argv line)
        as (λ (a : List (List ℕ)). (r : W × List ℕ × Bool) × (call_named call a w ≡ some r)) [
          | [] ↦ ((w, [], true), refl)
          | name ∷ args ↦ found_returns (name ∷ args) name (find_command 0 commands name) w
        ]

  key_returns : (s : Cli W) (ch : ℕ) → (r : Cli W × List ℕ) × (key call s ch ≡ some r)
  unfolding key
  key_returns s ch = elim (Option-cases (key call s ch)) [
    | inr (r, e) ↦ (r, e)
    | inl stuck ↦ let (r, e) = dispatch_returns s.line s.world in absurd (ground arith)
  ]

  -- Whatever bytes come in, the loop of cli_run handles all of them or ends by its flag, and the byte behind
  -- the line, which cli_dispatch sets to 0, is in the buffer.
  pub keys-length :
      (chs : List ℕ) (s : Cli W)
      → length s.line < line_max
      → (s' : Cli W) × (out : List ℕ) × (keys call s chs ≡ some (s', out))
        × (length s'.line < line_max)
  unfolding keys
  keys-length [] s small = (s, [], refl, small)
  keys-length (ch ∷ chs) s small = elim (Bool-cases s.running) [
    | inr stopped ↦ (s, [], simp stopped, small)
    | inl runs ↦
        let ((t, echo), e) = key_returns s ch in
        let (s', out, rest, short) = keys-length chs t (key-length s t ch echo small e) in
        (s', echo ++ out, simp runs (rw (e, rest) refl), short)
  ]
