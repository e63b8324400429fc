-- ===== src/Machine/Memops/Copies.antt =====
-- What `memset`, `memcpy` and `memmove` of arch/x86_64/memops.c leave in memory.
use ggmk.Base.{
  ℕ, zero, suc, ◌+◌, ◌-◌, ◌%◌, ◌≤◌, ◌<◌, ◌≡◌, ◌≢◌, ◌⊎◌, inl, inr, ◌∙◌, refl, sym, arith, ltb, leb,
  ◌&&◌, if◌then◌else◌, dec_lt, lt→ltb, le→ltb, ℕ_discrete,
}
use ggmk.Machine.Memops.{Bytes, store, fill, memset, copy_up, copy_down, memcpy, memmove}

-- The `n` bytes from `d` on are those that `mem` has from `s` on, and the others are those of `mem`.
abbrev pub IsCopied : Bytes → Bytes → ℕ → ℕ → ℕ → Type 0
IsCopied mem mem' d s n =
    ((i : ℕ) → i < n → mem' (d + i) ≡ mem (s + i))
    × ((p : ℕ) → (p < d) ⊎ (d + n ≤ p) → mem' p ≡ mem p)

store_self : (mem : Bytes) (at byte : ℕ) → store mem at byte at ≡ byte
unfolding store
store_self mem at byte = ground arith

store_ne : (mem : Bytes) (at byte p : ℕ) → p ≢ at → store mem at byte p ≡ mem p
unfolding store
store_ne mem at byte p ne = ground arith

copy_up-outside :
    (n : ℕ) (mem : Bytes) (d s p : ℕ) → (p < d) ⊎ (d + n ≤ p) → copy_up n mem d s p ≡ mem p
unfolding copy_up
copy_up-outside zero mem d s p out = refl
copy_up-outside (suc n) mem d s p out =
    copy_up-outside n (store mem d (mem s)) (d + 1) (s + 1) p
      (elim out [ inl a ↦ inl (omega arith) | inr b ↦ inr (omega arith) ])
    ∙ store_ne mem d (mem s) p (elim out [ inl a ↦ omega arith | inr b ↦ omega arith ])

-- Copying up is right where no byte is written before it is read.
copy_up-inside :
    (n : ℕ) (mem : Bytes) (d s i : ℕ)
    → (d ≤ s) ⊎ (s + n ≤ d)
    → i < n
    → copy_up n mem d s (d + i) ≡ mem (s + i)
unfolding copy_up
copy_up-inside zero mem d s i ok lt = absurd (omega arith)
copy_up-inside (suc n) mem d s zero ok lt =
    let at : d + 0 ≡ d = omega arith in
    let from : s + 0 ≡ s = omega arith in
    rw (at, from)
      (copy_up-outside n (store mem d (mem s)) (d + 1) (s + 1) d (inl (omega arith))
        ∙ store_self mem d (mem s))
copy_up-inside (suc n) mem d s (suc i) ok lt =
    let at : d + suc i ≡ d + 1 + i = omega arith in
    let from : s + suc i ≡ s + 1 + i = omega arith in
    rw (at, from)
      (copy_up-inside n (store mem d (mem s)) (d + 1) (s + 1) i
          (elim ok [ inl a ↦ inl (omega arith) | inr b ↦ inr (omega arith) ]) (omega arith)
        ∙ store_ne mem d (mem s) (s + 1 + i)
            (elim ok [ inl a ↦ omega arith | inr b ↦ omega arith ]))

-- one round of the loop down
copy_down-step :
    (n : ℕ) (mem : Bytes) (d s : ℕ)
    → copy_down (suc n) mem (d + suc n) (s + suc n)
      ≡ copy_down n (store mem (d + n) (mem (s + n))) (d + n) (s + n)
unfolding copy_down
copy_down-step n mem d s =
    let e : d + suc n - 1 ≡ d + n = omega arith in
    let e' : s + suc n - 1 ≡ s + n = omega arith in rw (e, e') refl

copy_down-outside :
    (n : ℕ) (mem : Bytes) (d s p : ℕ)
    → (p < d) ⊎ (d + n ≤ p)
    → copy_down n mem (d + n) (s + n) p ≡ mem p
unfolding copy_down
copy_down-outside zero mem d s p out = refl
copy_down-outside (suc n) mem d s p out = rw (copy_down-step n mem d s) (
    copy_down-outside n (store mem (d + n) (mem (s + n))) d s p
      (elim out [ inl a ↦ inl (omega arith) | inr b ↦ inr (omega arith) ])
    ∙ store_ne mem (d + n) (mem (s + n)) p (elim out [ inl a ↦ omega arith | inr b ↦ omega arith ]))

copy_down-inside :
    (n : ℕ) (mem : Bytes) (d s i : ℕ)
    → s ≤ d
    → i < n
    → copy_down n mem (d + n) (s + n) (d + i) ≡ mem (s + i)
copy_down-inside zero mem d s i le lt = absurd (omega arith)
copy_down-inside (suc n) mem d s i le lt = rw (copy_down-step n mem d s) (elim (ℕ_discrete n i) [
  | yes same ↦ rw (sym same) (
      copy_down-outside n (store mem (d + n) (mem (s + n))) d s (d + n) (inr (omega arith))
      ∙ store_self mem (d + n) (mem (s + n)))
  | no ne ↦
      copy_down-inside n (store mem (d + n) (mem (s + n))) d s i le (omega arith)
      ∙ store_ne mem (d + n) (mem (s + n)) (s + i) (omega arith)
])

-- `memmove` copies, whether the areas overlap or not.
pub memmove_lem : (mem : Bytes) (dst src n : ℕ) → IsCopied mem (memmove mem dst src n) dst src n
unfolding memmove
memmove_lem mem dst src n = elim (dec_lt dst src) [
  | yes lt ↦ rw (lt→ltb dst src lt) (
    (λ i small. copy_up-inside n mem dst src i (inl (omega arith)) small),
    (λ p out. copy_up-outside n mem dst src p out),
  )
  | no ge ↦ rw (le→ltb dst src (omega arith)) (
    (λ i small. copy_down-inside n mem dst src i (omega arith) small),
    (λ p out. copy_down-outside n mem dst src p out),
  )
]

-- `memcpy` copies if the areas do not overlap, or the destination begins no later than the source.
pub memcpy_lem :
    (mem : Bytes) (dst src n : ℕ)
    → (dst ≤ src) ⊎ (src + n ≤ dst)
    → IsCopied mem (memcpy mem dst src n) dst src n
unfolding memcpy
memcpy_lem mem dst src n ok = (
  (λ i small. copy_up-inside n mem dst src i ok small),
  (λ p out. copy_up-outside n mem dst src p out),
)

fill_at :
    (n : ℕ) (mem : Bytes) (d byte p : ℕ)
    → fill n mem d byte p ≡ (if leb d p && ltb p (d + n) then byte else mem p)
unfolding fill store
fill_at zero mem d byte p = ground arith
fill_at (suc n) mem d byte p = ground (arith, fill_at n (store mem d byte) (d + 1) byte p)

-- `memset` leaves the low byte of `c` at each of the `n` addresses, and the others as they were.
pub memset_lem :
    (mem : Bytes) (dst c n p : ℕ)
    → memset mem dst c n p ≡ (if leb dst p && ltb p (dst + n) then c % 256 else mem p)
unfolding memset
memset_lem mem dst c n p = fill_at n mem dst (c % 256) p
