-- ===== src/Mpmc/Threads/Places.antt =====
-- What a step of one thread on a ring of src/ring_mpmc.c keeps of the other threads.
use ggmk.Base.{
  ℕ, suc, ◌%◌, ◌<◌, ◌≡◌, ◌≢◌, ◌∙◌, refl, sym, ap, inl, inr, arith, Bool, true, false, some, List,
  [], ◌∷◌, ◌++◌, length, get_elem?-append, get_elem?-lt, ◌==◌, Bool-cases,
}
use ggmk.Mpmc.Threads.{
  Shared, Place, idle, push_start, push_tail, push_seq, push_copy, push_store, pop_start, pop_head,
  pop_seq, pop_copy, pop_store, update,
}
use ggmk.Mpmc.Threads.Inv.{ticket, IsAt, Fits}

pub update_self {ℓ} : {B : Type ℓ} (f : ℕ → B) (i : ℕ) (b : B) → update f i b i ≡ b
update_self f i b = let e : (i == i) ≡ true = ground arith in rw e refl

pub update_ne {ℓ} : {B : Type ℓ} (f : ℕ → B) (i j : ℕ) (b : B) → i ≢ j → update f i b j ≡ f j
update_ne f i j b ne = let e : (i == j) ≡ false = ground arith in rw e refl

pub IsAt-update :
    (cap : ℕ) (at : ℕ → ℕ) (full : ℕ → Bool) (c a : ℕ) (f b : Bool) (pos : ℕ)
    → c ≢ pos % cap
    → IsAt cap at full pos b
    → IsAt cap (update at c a) (update full c f) pos b
IsAt-update cap at full c a f b pos ne (e, e') =
    (update_ne at c (pos % cap) a ne ∙ e, update_ne full c (pos % cap) f ne ∙ e')

module _ {A : Type 0} (r : Shared A) (pushes : List A) (at : ℕ → ℕ) (full : ℕ → Bool) where
  -- a push claims the cell at the tail
  pub Fits-claim_push :
      (elem : A)
      → r.tail ≡ length pushes
      → (p : Place A) → Fits r pushes at full p
      → Fits (record r { tail = suc r.tail }) (pushes ++ elem ∷ []) at full p
  Fits-claim_push elem e idle f = tt
  Fits-claim_push elem e (push_start x) f = tt
  Fits-claim_push elem e (push_tail x tail) f = omega arith
  Fits-claim_push elem e (push_seq x tail seq) (lo, few, fresh) =
      (omega arith, omega arith, λ same last. absurd (omega arith))
  Fits-claim_push elem e (push_copy x tail) (lo, there, sent) =
      (omega arith, there, get_elem?-append pushes (elem ∷ []) tail (omega arith) ∙ sent)
  Fits-claim_push elem e (push_store x tail) (lo, there, sent, copied) =
      (omega arith, there, get_elem?-append pushes (elem ∷ []) tail (omega arith) ∙ sent, copied)
  Fits-claim_push elem e pop_start f = tt
  Fits-claim_push elem e (pop_head head) f = f
  Fits-claim_push elem e (pop_seq head seq) (lo, few, fresh) = (lo, omega arith, fresh)
  Fits-claim_push elem e (pop_copy head) f = f
  Fits-claim_push elem e (pop_store head x) (lo, there, sent) =
      (lo, there, get_elem?-append pushes (elem ∷ []) head (get_elem?-lt pushes head x sent) ∙ sent)

  -- a pop claims the cell at the head
  pub Fits-claim_pop :
      (p : Place A)
      → Fits r pushes at full p
      → Fits (record r { head = suc r.head }) pushes at full p
  Fits-claim_pop idle f = tt
  Fits-claim_pop (push_start x) f = tt
  Fits-claim_pop (push_tail x tail) f = f
  Fits-claim_pop (push_seq x tail seq) f = f
  Fits-claim_pop (push_copy x tail) f = f
  Fits-claim_pop (push_store x tail) f = f
  Fits-claim_pop pop_start f = tt
  Fits-claim_pop (pop_head head) f = omega arith
  Fits-claim_pop (pop_seq head seq) (lo, few, fresh) =
      (omega arith, few, λ same last. absurd (omega arith))
  Fits-claim_pop (pop_copy head) (lo, there) = (omega arith, there)
  Fits-claim_pop (pop_store head x) (lo, there, sent) = (omega arith, there, sent)

  -- The thread that has the cell of position `pos` copies into it, or moves it on.
  module _ (pos : ℕ) (b : Bool) (mine : IsAt r.cap at full pos b) where
    abbrev c : ℕ
    c = pos % r.cap

    elsewhere :
        (other : ℕ) (b' : Bool) → other ≢ pos → IsAt r.cap at full other b' → c ≢ other % r.cap
    elsewhere other b' ne (e, e') same = ne (sym e ∙ ap at (sym same) ∙ mine.0)

    pub Fits-copy :
        (elem : A) (p : Place A)
        → ((other : ℕ) → ticket p ≡ some other → other ≢ pos)
        → Fits r pushes at full p
        → Fits (record r { value = update r.value c elem }) pushes at full p
    Fits-copy elem (push_store x tail) apart (lo, there, sent, copied) = (
      lo,
      there,
      sent,
      update_ne r.value c (tail % r.cap) elem (elsewhere tail false (apart tail refl) there)
          ∙ copied,
    )
    Fits-copy elem idle apart f = tt
    Fits-copy elem (push_start x) apart f = tt
    Fits-copy elem (push_tail x tail) apart f = f
    Fits-copy elem (push_seq x tail seq) apart f = f
    Fits-copy elem (push_copy x tail) apart f = f
    Fits-copy elem pop_start apart f = tt
    Fits-copy elem (pop_head head) apart f = f
    Fits-copy elem (pop_seq head seq) apart f = f
    Fits-copy elem (pop_copy head) apart f = f
    Fits-copy elem (pop_store head x) apart f = f

    not_next :
        (head : ℕ)
        → IsAt r.cap at full head true
        → head ≡ r.head
        → (b ≡ true → pos < r.head)
        → head ≢ pos
    not_next head there last low' e = elim (Bool-cases b) [
      | inl t ↦ omega (arith, low' t)
      | inr f ↦
          let g : true ≡ false = sym there.1 ∙ ap (λ (x : ℕ). full (x % r.cap)) e ∙ mine.1 ∙ f in cc
    ]

    pub Fits-store :
        (seq' a : ℕ) (f' : Bool)
        → pos < r.tail
        → (b ≡ true → pos < r.head)
        → (p : Place A) → ((other : ℕ) → ticket p ≡ some other → other ≢ pos)
        → Fits r pushes at full p
        → Fits (record r { seq = update r.seq c seq' }) pushes (update at c a) (update full c f') p
    Fits-store seq' a f' low low' idle apart f = tt
    Fits-store seq' a f' low low' (push_start x) apart f = tt
    Fits-store seq' a f' low low' (push_tail x tail) apart f = f
    Fits-store seq' a f' low low' (push_seq x tail seq) apart (lo, few, fresh) = (
      lo,
      few,
      λ same last.
          let there = fresh same last in
          IsAt-update r.cap at full c a f' false tail
            (elsewhere tail false (λ e. omega arith) there) there,
    )
    Fits-store seq' a f' low low' (push_copy x tail) apart (lo, there, sent) = (
      lo,
      IsAt-update r.cap at full c a f' false tail (elsewhere tail false (apart tail refl) there)
          there,
      sent,
    )
    Fits-store seq' a f' low low' (push_store x tail) apart (lo, there, sent, copied) = (
      lo,
      IsAt-update r.cap at full c a f' false tail (elsewhere tail false (apart tail refl) there)
          there,
      sent,
      copied,
    )
    Fits-store seq' a f' low low' pop_start apart f = tt
    Fits-store seq' a f' low low' (pop_head head) apart f = f
    Fits-store seq' a f' low low' (pop_seq head seq) apart (lo, few, fresh) = (
      lo,
      few,
      λ same last.
          let there = fresh same last in
          IsAt-update r.cap at full c a f' true head
            (elsewhere head true (not_next head there last low') there) there,
    )
    Fits-store seq' a f' low low' (pop_copy head) apart (lo, there) = (
      lo,
      IsAt-update r.cap at full c a f' true head (elsewhere head true (apart head refl) there)
          there,
    )
    Fits-store seq' a f' low low' (pop_store head x) apart (lo, there, sent) = (
      lo,
      IsAt-update r.cap at full c a f' true head (elsewhere head true (apart head refl) there)
          there,
      sent,
    )
