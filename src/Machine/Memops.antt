-- ===== src/Machine/Memops.antt =====
-- arch/x86_64/memops.c: filling, copying and comparing memory. A loop `while (n--)` runs on the count
-- `n`, with the pointers as they then are.
pub mod Copies
pub mod Compare
mod Tests
use ggmk.Base.{ℕ, zero, suc, ◌+◌, ◌-◌, ◌%◌, ◌==◌, ltb, leb, if◌then◌else◌}

-- the bytes at the addresses
abbrev pub Bytes : Type 0
Bytes = ℕ → ℕ

-- one byte written
unfoldable pub store : Bytes → ℕ → ℕ → Bytes
store mem at byte = λ p. if p == at then byte else mem p

-- the loop of `memset` from `d` on
pub fill : ℕ → Bytes → ℕ → ℕ → Bytes
unfolding store
fill zero mem d byte = mem
fill (suc n) mem d byte = fill n (store mem d byte) (d + 1) byte

-- `memset`, with `c` as an unsigned number
unfoldable pub memset : Bytes → ℕ → ℕ → ℕ → Bytes
unfolding fill
memset mem dst c n = fill n mem dst (c % 256)

-- the loop of `memcpy`, and of `memmove` to a lower address
pub copy_up : ℕ → Bytes → ℕ → ℕ → Bytes
unfolding store
copy_up zero mem d s = mem
copy_up (suc n) mem d s = copy_up n (store mem d (mem s)) (d + 1) (s + 1)

-- the loop of `memmove` from the ends down
pub copy_down : ℕ → Bytes → ℕ → ℕ → Bytes
unfolding store
copy_down zero mem d s = mem
copy_down (suc n) mem d s = copy_down n (store mem (d - 1) (mem (s - 1))) (d - 1) (s - 1)

-- `memcpy`
unfoldable pub memcpy : Bytes → ℕ → ℕ → ℕ → Bytes
unfolding copy_up
memcpy mem dst src n = copy_up n mem dst src

-- `memmove`
unfoldable pub memmove : Bytes → ℕ → ℕ → ℕ → Bytes
unfolding copy_up copy_down
memmove mem dst src n =
    if ltb dst src then copy_up n mem dst src else copy_down n mem (dst + n) (src + n)

-- a difference of bytes, as an `int`
pub data ℤ : Type 0 where
  pos : ℕ → ℤ
  negsuc : ℕ → ℤ

unfoldable pub difference : ℕ → ℕ → ℤ
difference x y = if leb y x then pos (x - y) else negsuc (y - x - 1)

-- `memcmp`, from the addresses `a` and `b` on
pub memcmp : ℕ → Bytes → ℕ → ℕ → ℤ
unfolding difference
memcmp zero mem a b = pos 0
memcmp (suc n) mem a b =
    let rest = memcmp n mem (a + 1) (b + 1) in
    if mem a == mem b then rest else difference (mem a) (mem b)

-- `strncmp`, from the addresses `a` and `b` on
pub strncmp : ℕ → Bytes → ℕ → ℕ → ℤ
unfolding difference
strncmp zero mem a b = pos 0
strncmp (suc n) mem a b =
    let rest = strncmp n mem (a + 1) (b + 1) in
    if mem a == mem b then (if mem a == 0 then pos 0 else rest) else difference (mem a) (mem b)

-- The first loop of `strncpy`, with `n` bytes to go, and the second where it ends.
pub strncpy : ℕ → Bytes → ℕ → ℕ → Bytes
unfolding store fill
strncpy zero mem d s = mem
strncpy (suc n) mem d s =
    let rest = strncpy n (store mem d (mem s)) (d + 1) (s + 1) in
    if mem s == 0 then fill (suc n) mem d 0 else rest
