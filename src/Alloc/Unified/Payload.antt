-- ===== src/Alloc/Unified/Payload.antt =====
-- The references of a payload: `gmk_payload_alloc`, `gmk_payload_retain` and `gmk_payload_release` of
-- src/alloc.c.
use ggmk.Base.{
  Bool-cases, Option-cases, inl, inr, ℕ, suc, ◌+◌, ◌-◌, ◌<◌, ◌≡◌, refl, ap, sym, ◌==◌, ◌||◌, Bool,
  true, false, Option, none, some, List, [], ◌∷◌, arith, u32_mod, add32, sub32, ◌>>=◌,
}
use mathlib.Core.Path.{subst}
use mathlib.Core.Option.{some-injective}
use ggmk.Alloc.Unified.{
  Alloc, Header, Headers, with_header, headed, payload_alloc, payload_retain, payload_release, free,
  alloc,
}

-- a call on a payload
pub data RefOp : Type 0 where
  retain release : RefOp

-- The calls on a payload, in order; the first component says whether one of them freed it.
pub run_refs : Headers → Alloc → ℕ → List RefOp → Option (Bool × Headers × Alloc)
run_refs headers a payload [] = some (false, headers, a)
run_refs headers a payload (retain ∷ ops) = run_refs (payload_retain headers payload) a payload ops
run_refs headers a payload (release ∷ ops) = payload_release headers a payload >>= λ r.
    (run_refs r.1 r.2 payload ops >>= λ r'. some (r.0 || r'.0, r'.1, r'.2))

-- From `k` references the calls end with `k'`, with one reference at least and fewer than 2 ^ 32 after
-- each.
abbrev pub Balances : ℕ → List RefOp → ℕ → Type 0
Balances k [] k' = k ≡ k'
Balances k (retain ∷ ops) k' = (suc k < u32_mod) × Balances (suc k) ops k'
Balances k (release ∷ ops) k' = (1 < k) × Balances (k - 1) ops k'

-- the header at an address counts `k` references
abbrev pub Counts : Headers → ℕ → ℕ → ℕ → Type 0
Counts headers payload k size = headers (payload - 8) ≡ record { refcount = k; size = size }

with_header_self : (headers : Headers) (at : ℕ) (h : Header) → with_header headers at h at ≡ h
unfolding with_header
with_header_self headers at h = ground arith

==-gt_one : (k : ℕ) → 1 < k → (k == 1) ≡ false
==-gt_one k lt = ground arith

retain-Counts :
    (headers : Headers) (payload k size : ℕ)
    → Counts headers payload k size
    → suc k < u32_mod
    → Counts (payload_retain headers payload) payload (suc k) size
unfolding payload_retain
retain-Counts headers payload k size e lt =
    let up : add32 k 1 ≡ suc k = ground arith in rw (payload_retain, with_header_self, e, up) refl

release-keeps :
    (headers : Headers) (a : Alloc) (payload k size : ℕ)
    → Counts headers payload k size
    → 1 < k
    → k < u32_mod
    → (headers' : Headers) × (payload_release headers a payload ≡ some (false, headers', a))
      × Counts headers' payload (k - 1) size
unfolding payload_release
release-keeps headers a payload k size e lt small =
    let down : sub32 k 1 ≡ k - 1 = ground arith in
    rw (payload_release, e, ==-gt_one k lt) (_, refl, rw (with_header_self, down) refl)

run_refs-Counts :
    (headers : Headers) (a : Alloc) (payload k k' size : ℕ) (ops : List RefOp)
    → Counts headers payload k size
    → k < u32_mod
    → Balances k ops k'
    → (headers' : Headers) × (run_refs headers a payload ops ≡ some (false, headers', a))
      × Counts headers' payload k' size
unfolding run_refs
run_refs-Counts headers a payload k k' size [] e small bal =
    (headers, refl, subst (λ c. Counts headers payload c size) bal e)
run_refs-Counts headers a payload k k' size (retain ∷ ops) e small (lt, bal) =
    run_refs-Counts (payload_retain headers payload) a payload (suc k) k' size ops
      (retain-Counts headers payload k size e lt) lt bal
run_refs-Counts headers a payload k k' size (release ∷ ops) e small (lt, bal) =
    let (headers', done, e') = release-keeps headers a payload k size e lt small in
    let (headers'', done', e'') =
      run_refs-Counts headers' a payload (k - 1) k' size ops e' (omega arith) bal in
    rw (done, done') (headers'', refl, e'')

-- the payload that a call returns
abbrev first : Option ℕ × Headers × Alloc → Option ℕ
first t = t.0

headed-Counts :
    (headers : Headers) (size : ℕ) (r : Option ℕ × Alloc) (headers₁ : Headers) (a₁ : Alloc)
    (payload : ℕ)
    → some (headed headers size r) ≡ some (some payload, headers₁, a₁)
    → Counts headers₁ payload 1 size
headed-Counts headers size (none, a) headers₁ a₁ payload e =
    absurd (ground (arith, ap first (some-injective _ _ e)))
headed-Counts headers size (some mem, a) headers₁ a₁ payload e =
    let same = some-injective _ _ e in
    let at : mem + 8 ≡ payload = some-injective (mem + 8) payload (ap first same) in
    let h : with_header headers mem (record { refcount = 1; size = size }) ≡ headers₁ =
      ap (λ t. t.1) same in
    let back : payload - 8 ≡ mem = omega arith in rw (back, sym h) (with_header_self headers mem _)

-- What a success of `gmk_payload_alloc` leaves in the header.
payload_alloc-Counts :
    (headers : Headers) (a : Alloc) (size : ℕ) (headers₁ : Headers) (a₁ : Alloc) (payload : ℕ)
    → payload_alloc headers a size ≡ some (some payload, headers₁, a₁)
    → Counts headers₁ payload 1 size
unfolding payload_alloc
payload_alloc-Counts headers a size headers₁ a₁ payload e = elim (Bool-cases (size == 0)) [
  | inl empty ↦ absurd (ground (arith, ap first (some-injective _ _ (rw empty at e))))
  | inr full ↦ elim (Option-cases (alloc a (add32 8 size))) [
    | inl out ↦ absurd (ground (arith, rw (full, out) at e))
    | inr (r, done) ↦ headed-Counts headers size r headers₁ a₁ payload (rw (full, done) at e)
  ]
]

-- Whatever calls of `gmk_payload_retain` and `gmk_payload_release` follow a `gmk_payload_alloc` that
-- returns a payload, if they leave between 1 and 2 ^ 32 - 1 references, one at last, then none of them
-- frees anything or changes the allocator, and one more release is a call of `gmk_free` on the object
-- with the size of header and payload.
pub payload_refs_lem :
    (headers : Headers) (a : Alloc) (size : ℕ) (headers₁ : Headers) (a₁ : Alloc) (payload : ℕ)
    (ops : List RefOp)
    → payload_alloc headers a size ≡ some (some payload, headers₁, a₁)
    → Balances 1 ops 1
    → (headers₂ headers₃ : Headers) × (run_refs headers₁ a₁ payload ops
        ≡ some (false, headers₂, a₁))
      × (payload_release headers₂ a₁ payload
          ≡ (free a₁ (payload - 8) (add32 8 size) >>= λ a₂. some (true, headers₃, a₂)))
unfolding payload_release
payload_refs_lem headers a size headers₁ a₁ payload ops made bal =
    let e = payload_alloc-Counts headers a size headers₁ a₁ payload made in
    let (headers₂, done, e₂) =
      run_refs-Counts headers₁ a₁ payload 1 1 size ops e (omega arith) bal in
    (
      headers₂,
      with_header headers₂ (payload - 8) (record { refcount = 0; size = size }),
      done,
      rw (payload_release, e₂) refl,
    )
