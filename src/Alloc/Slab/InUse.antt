-- ===== src/Alloc/Slab/InUse.antt =====
-- Objects of src/alloc_slab.c in use, as a client holds their pointers.
use ggmk.Base.{
  ℕ, ◌+◌, ◌*◌, ◌≤◌, ◌<◌, ◌≡◌, ◌≢◌, ◌∙◌, ap, ◌⊎◌, inl, inr, List, [], ◌∷◌, arith, length, ℕ_discrete,
  if◌then◌else◌, ◌==◌, Bool-cases, ==_iff, dec_lt,
}
use ggmk.Alloc.Slab.{Slab}
use ggmk.Alloc.Slab.Free.{In, SameObjects}

unfoldable pub drop_first : ℕ → List ℕ → List ℕ
drop_first p [] = []
drop_first p (q ∷ qs) = if p == q then qs else q ∷ drop_first p qs

-- Two objects do not overlap.
abbrev pub AllApart : ℕ → ℕ → List ℕ → Type 0
AllApart size p [] = Unit
AllApart size p (q ∷ qs) = ((p + size ≤ q) ⊎ (q + size ≤ p)) × AllApart size p qs

abbrev pub Disjoint : ℕ → List ℕ → Type 0
Disjoint size [] = Unit
Disjoint size (p ∷ ps) = AllApart size p ps × Disjoint size ps

-- Each pointer is that of an object of the slab that is not free.
abbrev pub InUse : Slab → List ℕ → List ℕ → Type 0
InUse s is [] = Unit
InUse s is (p ∷ ps) =
    ((i : ℕ) × (p ≡ s.base + i * s.obj_size) × (i < s.capacity) × (In i is → ⊥)) × InUse s is ps

-- An object that is not free is apart from the first free one.
pub InUse-AllApart :
    (s : Slab) (is : List ℕ) (i : ℕ) (ps : List ℕ)
    → InUse s (i ∷ is) ps
    → AllApart s.obj_size (s.base + i * s.obj_size) ps
InUse-AllApart s is i [] u = tt
InUse-AllApart s is i (p ∷ ps) ((j, e, lt, out), u) = (
  elim (dec_lt i j) [
    | yes below ↦ inl (grind arith)
    | no not_below ↦
        inr (elim (ℕ_discrete j i) [ yes same ↦ absurd (out (inl same)) | no ne ↦ grind arith ])
  ],
  InUse-AllApart s is i ps u,
)

-- Objects in use stay so when the slab has given one more, with the objects where they were.
pub InUse-given :
    (s s' : Slab) (is : List ℕ) (i : ℕ) (ps : List ℕ)
    → SameObjects s s'
    → InUse s (i ∷ is) ps
    → InUse s' is ps
InUse-given s s' is i [] same u = tt
InUse-given s s' is i (p ∷ ps) (b, o, c) ((j, e, lt, out), u) =
    ((j, rw (b, o) e, omega arith, (λ m. out (inr m))), InUse-given s s' is i ps (b, o, c) u)

-- Objects apart from the one freed stay in use.
InUse-freed :
    (s s' : Slab) (is : List ℕ) (i : ℕ) (ps : List ℕ)
    → 0 < s.obj_size
    → SameObjects s s'
    → InUse s is ps
    → AllApart s.obj_size (s.base + i * s.obj_size) ps
    → InUse s' (i ∷ is) ps
InUse-freed s s' is i [] wide same u apart = tt
InUse-freed s s' is i (p ∷ ps) wide (b, o, c) ((j, e, lt, out), u) (a, apart) =
    let ne : j ≢ i = λ same. absurd (ground (arith, ap (λ (t : ℕ). t * s.obj_size) same)) in
    (
      (j, rw (b, o) e, omega arith, (λ m. elim m [ inl same ↦ ne same | inr m' ↦ out m' ])),
      InUse-freed s s' is i ps wide (b, o, c) u apart,
    )

AllApart-In :
    (size p q : ℕ) (ps : List ℕ) → AllApart size p ps → In q ps → (p + size ≤ q) ⊎ (q + size ≤ p)
AllApart-In size p q [] a m = elim m [ ]
AllApart-In size p q (r ∷ ps) (a, rest) (inl e) = rw e a
AllApart-In size p q (r ∷ ps) (a, rest) (inr m) = AllApart-In size p q ps rest m

AllApart-drop_first :
    (size p q : ℕ) (ps : List ℕ) → AllApart size p ps → AllApart size p (drop_first q ps)
unfolding drop_first
AllApart-drop_first size p q [] a = tt
AllApart-drop_first size p q (r ∷ ps) (a, rest) = elim (Bool-cases (q == r)) [
  | inl e ↦ rw e rest
  | inr ne ↦ rw ne (a, AllApart-drop_first size p q ps rest)
]

pub Disjoint-drop_first :
    (size q : ℕ) (ps : List ℕ) → Disjoint size ps → Disjoint size (drop_first q ps)
unfolding drop_first
Disjoint-drop_first size q [] d = tt
Disjoint-drop_first size q (r ∷ ps) (a, rest) = elim (Bool-cases (q == r)) [
  | inl e ↦ rw e rest
  | inr ne ↦ rw ne (AllApart-drop_first size r q ps a, Disjoint-drop_first size q ps rest)
]

pub length-drop_first : (q : ℕ) (ps : List ℕ) → In q ps → length (drop_first q ps) + 1 ≡ length ps
unfolding drop_first
length-drop_first q [] m = elim m [ ]
length-drop_first q (r ∷ ps) m = elim (Bool-cases (q == r)) [
  | inl e ↦ rw e (omega arith)
  | inr ne ↦
      let later : In q ps = elim m [ inl same ↦ absurd (ground arith) | inr m' ↦ m' ] in
      rw ne (omega (arith, length-drop_first q ps later))
]

-- The objects that the client still holds are in use when it has freed one.
pub InUse-drop_first :
    (s s' : Slab) (is : List ℕ) (i q : ℕ) (ps : List ℕ)
    → 0 < s.obj_size
    → SameObjects s s'
    → q ≡ s.base + i * s.obj_size
    → InUse s is ps
    → Disjoint s.obj_size ps
    → In q ps
    → InUse s' (i ∷ is) (drop_first q ps)
unfolding drop_first
InUse-drop_first s s' is i q [] wide same at u d m = elim m [ ]
InUse-drop_first s s' is i q (r ∷ ps) wide same at (ur, u) (a, rest) m =
    elim (Bool-cases (q == r)) [
      | inl e ↦
          let at' : r ≡ s.base + i * s.obj_size = omega (arith, (==_iff q r).0 e) in
          rw e (InUse-freed s s' is i ps wide same u (rw at' at a))
      | inr ne ↦
          let later : In q ps = elim m [ inl same' ↦ absurd (ground arith) | inr m' ↦ m' ] in
          let one : AllApart s.obj_size (s.base + i * s.obj_size) (r ∷ []) = (
            elim (AllApart-In s.obj_size r q ps a later) [
              | inl above ↦ inr (omega arith)
              | inr below ↦ inl (omega arith)
            ],
            tt,
          ) in
          rw ne (
            (InUse-freed s s' is i (r ∷ []) wide same (ur, tt) one).0,
            InUse-drop_first s s' is i q ps wide same at u rest later,
          )
    ]

pub InUse-In :
    (s : Slab) (is : List ℕ) (q : ℕ) (ps : List ℕ)
    → InUse s is ps
    → In q ps
    → (i : ℕ) × (q ≡ s.base + i * s.obj_size) × (i < s.capacity) × (In i is → ⊥)
InUse-In s is q [] u m = elim m [ ]
InUse-In s is q (p ∷ ps) ((i, e, lt, out), u) (inl same) = (i, same ∙ e, lt, out)
InUse-In s is q (p ∷ ps) (up, u) (inr m) = InUse-In s is q ps u m
