-- ===== src/Machine/Memops/Tests.antt =====
-- Runs of arch/x86_64/memops.c.
use ggmk.Base.{◌≡◌, refl, arith, inl}
use ggmk.Machine.Memops.{
  Bytes, pos, store, fill, copy_up, copy_down, memmove, memcpy, memcmp, strncpy, strncmp,
  difference,
}
use ggmk.Machine.Memops.Copies.{IsCopied, memmove_lem, memcpy_lem}

-- the bytes 0, 1, 2 and so on
abbrev counting : Bytes
counting = λ p. p

-- an area moved up over itself
moved : memmove counting 2 0 5 6 ≡ 4
unfolding memmove copy_up copy_down store
moved = refl

-- `memcpy` up over itself repeats the first bytes.
repeated : memcpy counting 2 0 5 6 ≡ 0
unfolding memcpy copy_up store
repeated = refl

compared : memcmp 3 counting 4 1 ≡ pos 3
unfolding memcmp difference
compared = refl

copied_string : strncpy 4 (store counting 12 0) 20 10 23 ≡ 0
unfolding strncpy store fill
copied_string = refl

compared_strings : strncmp 9 (store (store counting 12 0) 2 0) 12 2 ≡ pos 0
unfolding strncmp store difference
compared_strings = refl

memmove_lem_example : IsCopied counting (memmove counting 2 0 5) 2 0 5
memmove_lem_example = memmove_lem counting 2 0 5

memcpy-IsCopied : IsCopied counting (memcpy counting 0 2 5) 0 2 5
memcpy-IsCopied = memcpy_lem counting 0 2 5 (inl (omega arith))
