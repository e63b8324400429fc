-- ===== src/Alloc/Slab/Client.antt =====
-- A client of src/alloc_slab.c that frees only what it holds is never given an object twice.
use mathlib.Core.Path.{subst}
use ggmk.Base.{ℕ, ◌+◌, ◌*◌, ◌≤◌, ◌<◌, ◌≡◌, ◌∙◌, refl, sym, List, [], ◌∷◌, none, some, arith, length}
use ggmk.Alloc.Slab.{Slab, alloc, free}
use ggmk.Alloc.Slab.InUse.{
  drop_first, AllApart, Disjoint, InUse, InUse-AllApart, InUse-given, InUse-drop_first, InUse-In,
  Disjoint-drop_first, length-drop_first,
}
use ggmk.Alloc.Slab.Free.{In, HasFree, SameObjects, slab_alloc_lem, slab_free_lem}

-- a slab and the pointers that the client holds
pub record Client : Type 0 where
  pub slab : Slab
  pub held : List ℕ

pub data Step : Client → Client → Type 0 where
  given :
      {c : Client} (p : ℕ) (s : Slab)
      → alloc c.slab ≡ some (some p, s)
      → Step c (record { slab = s; held = p ∷ c.held })
  refused : {c : Client} (s : Slab) → alloc c.slab ≡ some (none, s) → Step c (record c { slab = s })
  freed :
      {c : Client} (p : ℕ)
      → In p c.held
      → Step c (record { slab = free c.slab p; held = drop_first p c.held })

pub data Reach (c : Client) : Client → Type 0 where
  here : Reach c c
  next : {d e : Client} → Reach c d → Step d e → Reach c e

-- What holds of a client that frees only what it holds.
record IsSafe (s : Slab) (c : Client) : Type 0 where
  is : List ℕ
  free : HasFree c.slab is
  same : SameObjects s c.slab
  used : InUse c.slab is c.held
  apart : Disjoint s.obj_size c.held
  counted : c.slab.alloc_count ≡ length c.held

SameObjects-trans : (s t u : Slab) → SameObjects s t → SameObjects t u → SameObjects s u
SameObjects-trans s t u (a, b, c) (a', b', c') = (a' ∙ a, b' ∙ b, c' ∙ c)

given-IsSafe :
    (s : Slab) (c : Client) (p : ℕ) (s' : Slab) (is : List ℕ)
    → IsSafe s c
    → HasFree c.slab is
    → InUse c.slab is c.held
    → alloc c.slab ≡ some (some p, s')
    → IsSafe s (record { slab = s'; held = p ∷ c.held })
given-IsSafe s c p s' [] v h u e = absurd (cc (slab_alloc_lem c.slab [] h))
given-IsSafe s c p s' (i ∷ is) v h u e =
    let (t, done, h', out, counted, same) = slab_alloc_lem c.slab (i ∷ is) h in
    let at : p ≡ c.slab.base + i * c.slab.obj_size = cc in
    let slab : s' ≡ t = cc in
    let lt : i < c.slab.capacity = omega (arith, h.linked.1, h.sized) in
    let (b, o, n) = same in
    rw (slab, at)
      (record {
        is = is;
        free = h';
        same = SameObjects-trans s c.slab t v.same same;
        used = ((i, rw (b, o) refl, omega arith, out), InUse-given c.slab t is i c.held same u);
        apart = (
          subst (λ (o : ℕ). AllApart o (c.slab.base + i * c.slab.obj_size) c.held) v.same.1
              (InUse-AllApart c.slab is i c.held u),
          v.apart,
        );
        counted = omega (arith, v.counted);
      })

refused-IsSafe :
    (s : Slab) (c : Client) (s' : Slab) (is : List ℕ)
    → IsSafe s c
    → HasFree c.slab is
    → alloc c.slab ≡ some (none, s')
    → IsSafe s (record c { slab = s' })
refused-IsSafe s c s' [] v h e =
    let slab : s' ≡ c.slab = cc (slab_alloc_lem c.slab [] h) in
    subst (λ (t : Slab). IsSafe s (record c { slab = t })) (sym slab) v
refused-IsSafe s c s' (i ∷ is) v h e =
    let given = slab_alloc_lem c.slab (i ∷ is) h in let done = given.1 in absurd (cc)

freed-IsSafe :
    (s : Slab) (c : Client) (p : ℕ)
    → IsSafe s c
    → In p c.held
    → IsSafe s (record { slab = free c.slab p; held = drop_first p c.held })
freed-IsSafe s c p v m =
    let (i, at, lt, out) = InUse-In c.slab v.is p c.held v.used m in
    let s' = free c.slab (c.slab.base + i * c.slab.obj_size + 0) in
    let left = length-drop_first p c.held m in
    let (h, counted, same) =
      slab_free_lem c.slab v.is v.free i lt out (omega (arith, v.counted)) 0 v.free.wide in
    let at' : c.slab.base + i * c.slab.obj_size + 0 ≡ p = omega arith in
    let apart : Disjoint c.slab.obj_size c.held = rw v.same.1 v.apart in
    subst (λ (q : ℕ). IsSafe s (record { slab = free c.slab q; held = drop_first p c.held })) at'
      (record {
        is = i ∷ v.is;
        free = h;
        same = SameObjects-trans s c.slab s' v.same same;
        used = InUse-drop_first c.slab s' v.is i p c.held v.free.wide same at v.used apart m;
        apart = Disjoint-drop_first s.obj_size p c.held v.apart;
        counted = omega (arith, v.counted);
      })

Step-IsSafe : {s : Slab} {c d : Client} → Step c d → IsSafe s c → IsSafe s d
Step-IsSafe {s} (given {c} p s' e) v = given-IsSafe s c p s' v.is v v.free v.used e
Step-IsSafe {s} (refused {c} s' e) v = refused-IsSafe s c s' v.is v v.free e
Step-IsSafe {s} (freed {c} p m) v = freed-IsSafe s c p v m

Reach-IsSafe : {s : Slab} {c d : Client} → IsSafe s c → Reach c d → IsSafe s d
Reach-IsSafe v here = v
Reach-IsSafe v (next r st) = Step-IsSafe st (Reach-IsSafe v r)

-- each object of the list lies between `lo` and `hi`
abbrev pub AllWithin : ℕ → ℕ → ℕ → List ℕ → Type 0
AllWithin lo hi size [] = Unit
AllWithin lo hi size (p ∷ ps) = (lo ≤ p) × (p + size ≤ hi) × AllWithin lo hi size ps

InUse-AllWithin :
    (s t : Slab) (is ps : List ℕ)
    → SameObjects s t
    → InUse t is ps
    → AllWithin s.base (s.base + s.capacity * s.obj_size) s.obj_size ps
InUse-AllWithin s t is [] same u = tt
InUse-AllWithin s t is (p ∷ ps) (b, o, n) ((i, at, lt, out), u) =
    let at' : p ≡ s.base + i * s.obj_size = rw (b, o) at at in
    let lt' : i < s.capacity = omega arith in
    (omega arith, grind arith, InUse-AllWithin s t is ps (b, o, n) u)

-- From a slab whose objects are all free, whatever calls of `gmk_slab_alloc` a client makes and
-- whatever pointers that it holds it gives to `gmk_slab_free`, the objects that it holds lie in the
-- memory of the slab and do not overlap.
pub slab_held-Disjoint :
    {s : Slab} {c : Client} {is : List ℕ}
    → HasFree s is
    → s.alloc_count ≡ 0
    → Reach (record { slab = s; held = [] }) c
    → Disjoint s.obj_size c.held
      × AllWithin s.base (s.base + s.capacity * s.obj_size) s.obj_size c.held
slab_held-Disjoint {s} {c} {is} h fresh r =
    let start : IsSafe s (record { slab = s; held = [] }) = record {
      is = is;
      free = h;
      same = (refl, refl, refl);
      used = tt;
      apart = tt;
      counted = fresh;
    } in
    let v = Reach-IsSafe start r in (v.apart, InUse-AllWithin s c.slab v.is c.held v.same v.used)
