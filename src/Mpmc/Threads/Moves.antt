-- ===== src/Mpmc/Threads/Moves.antt =====
-- A step of a thread on a ring of src/ring_mpmc.c keeps what holds of all of them.
use ggmk.Base.{
  ℕ, suc, ◌+◌, ◌-◌, ◌%◌, ◌^◌, ◌≤◌, ◌<◌, ◌≡◌, ◌≢◌, ◌⊎◌, ◌∙◌, sym, ap, inl, inr, arith, Bool, true,
  false, some, List, [], ◌∷◌, ◌++◌, get_elem?-append, get_elem?-append_self, get_elem?-lt,
  length-append, ◌==◌, Bool-cases, add32, bit_and,
}
use mathlib.Core.List.{append-nil}
use mathlib.Core.Path.{subst}
use mathlib.Core.Option.{some-injective}
use native.Mathlib.Nat.{mod-lt}
use ggmk.Bits.{IsPow2}
use ggmk.Bits.Wrap.{bit_and-IsPow2}
use ggmk.Mpmc.Threads.{
  Shared, Place, idle, push_start, push_tail, push_seq, push_copy, push_store, pop_start, pop_head,
  pop_seq, pop_copy, pop_store, cell, update, System,
}
use ggmk.Mpmc.Threads.Inv.{ticket, IsAt, Fits, AllLeft, Inv}
use ggmk.Mpmc.Threads.Places.{Fits-claim_push, Fits-claim_pop}

module _ {A : Type 0} {cap n : ℕ} {s : System A} {at : ℕ → ℕ} {full : ℕ → Bool}
    (inv : Inv cap n s at full) (pow : IsPow2 cap) (two : 1 < cap) (small : n + cap + 2 < 2 ^ 31)
    (i : ℕ) where
  abbrev r : Shared A
  r = s.ring

  -- A thread that draws no new position.
  pub unique-update :
      (p : Place A)
      → ((pos : ℕ) → ticket p ≡ some pos → (j : ℕ) → ticket (s.place j) ≡ some pos → i ≡ j)
      → (j k pos : ℕ) → ticket (update s.place i p j) ≡ some pos
      → ticket (update s.place i p k) ≡ some pos
      → j ≡ k
  unique-update p own j k pos tj tk = elim (Bool-cases (i == j)) [
    | inl same ↦ elim (Bool-cases (i == k)) [
      | inl same' ↦ ground arith
      | inr other ↦
          let e : i ≡ j = ground arith in sym e ∙ own pos (rw same at tj) k (rw other at tk)
    ]
    | inr apart ↦ elim (Bool-cases (i == k)) [
      | inl same' ↦
          let e : i ≡ k = ground arith in sym (own pos (rw same' at tk) j (rw apart at tj)) ∙ e
      | inr other ↦ inv.unique j k pos (rw apart at tj) (rw other at tk)
    ]
  ]

  pub Fits-update :
      (r' : Shared A) (pushes : List A) (at' : ℕ → ℕ) (full' : ℕ → Bool) (p : Place A)
      → Fits r' pushes at' full' p
      → ((j : ℕ) → i ≢ j → Fits r' pushes at' full' (s.place j))
      → (j : ℕ) → Fits r' pushes at' full' (update s.place i p j)
  Fits-update r' pushes at' full' p own others j = elim (Bool-cases (i == j)) [
    | inl same ↦ rw same own
    | inr apart ↦ rw apart (others j (λ e. ground arith))
  ]

  -- A step that changes nothing of the ring.
  pub alone :
      (p : Place A)
      → Fits r s.pushes at full p
      → ((pos : ℕ) → ticket p ≡ some pos → ticket (s.place i) ≡ some pos)
      → Inv cap
          (suc n)
          (record {
            ring = s.ring;
            place = update s.place i p;
            pushes = s.pushes ++ [];
            pops = s.pops ++ [];
          })
          at
          full
  alone p own same =
      rw (append-nil s.pushes, append-nil s.pops)
        (record {
          capacity = inv.capacity;
          counted = inv.counted;
          early = omega (arith, inv.early);
          ordered = inv.ordered;
          placed = inv.placed;
          empty = inv.empty;
          filled = inv.filled;
          claimed = inv.claimed;
          taken = inv.taken;
          fits = Fits-update r s.pushes at full p own (λ j ne. inv.fits j);
          unique = unique-update p (λ pos t j tj. inv.unique i j pos (same pos t) tj);
          left = inv.left;
          once = inv.once;
        })

  pub cell_lem : (pos : ℕ) → cell r pos ≡ pos % cap
  cell_lem pos = ap (λ (c : ℕ). bit_and pos (c - 1)) inv.capacity ∙ bit_and-IsPow2 pow pos

  -- What a thread has that has a cell for itself.
  pub holder :
      (p : Place A) (pos : ℕ)
      → ticket p ≡ some pos
      → Fits r s.pushes at full p
      → ((pos < r.tail) × IsAt r.cap at full pos false)
        ⊎ ((pos < r.head) × IsAt r.cap at full pos true)
  holder (push_copy elem tail) pos t (lo, there, sent) =
      let e : tail ≡ pos = some-injective tail pos t in
      inl (omega arith, subst (λ (x : ℕ). IsAt r.cap at full x false) e there)
  holder (push_store elem tail) pos t (lo, there, sent, copied) =
      let e : tail ≡ pos = some-injective tail pos t in
      inl (omega arith, subst (λ (x : ℕ). IsAt r.cap at full x false) e there)
  holder (pop_copy head) pos t (lo, there) =
      let e : head ≡ pos = some-injective head pos t in
      inr (omega arith, subst (λ (x : ℕ). IsAt r.cap at full x true) e there)
  holder (pop_store head elem) pos t (lo, there, sent) =
      let e : head ≡ pos = some-injective head pos t in
      inr (omega arith, subst (λ (x : ℕ). IsAt r.cap at full x true) e there)
  holder idle pos t f = absurd (cc)
  holder (push_start elem) pos t f = absurd (cc)
  holder (push_tail elem tail) pos t f = absurd (cc)
  holder (push_seq elem tail seq) pos t f = absurd (cc)
  holder pop_start pos t f = absurd (cc)
  holder (pop_head head) pos t f = absurd (cc)
  holder (pop_seq head seq) pos t f = absurd (cc)

  pub in_ring : (pos : ℕ) → pos % r.cap < cap
  in_ring pos = rw inv.capacity (mod-lt pos (omega arith))

  pub no_wrap : (pos : ℕ) → pos ≤ r.tail → add32 pos 1 ≡ suc pos
  no_wrap pos lo = omega (arith, inv.early)

  AllLeft-append :
      (elem : A) (pops : List (ℕ × A))
      → AllLeft cap s.pushes at pops
      → AllLeft cap (s.pushes ++ elem ∷ []) at pops
  AllLeft-append elem [] l = tt
  AllLeft-append elem ((pos, x) ∷ pops) (sent, past, l) = (
    get_elem?-append s.pushes (elem ∷ []) pos (get_elem?-lt s.pushes pos x sent) ∙ sent,
    past,
    AllLeft-append elem pops l,
  )

  -- A push claims the cell at the tail.
  pub claim_push :
      (elem : A)
      → IsAt r.cap at full r.tail false
      → Inv cap
          (suc n)
          (record {
            ring = record r { tail = suc r.tail };
            place = update s.place i (push_copy elem r.tail);
            pushes = s.pushes ++ elem ∷ [];
            pops = s.pops ++ [];
          })
          at
          full
  claim_push elem there = rw (append-nil s.pops) (record {
    capacity = inv.capacity;
    counted = omega (arith, inv.counted, length-append s.pushes (elem ∷ []));
    early = omega (arith, inv.early);
    ordered = omega (arith, inv.ordered);
    placed = λ j lt. let (e, lo) = inv.placed j lt in (e, omega arith);
    empty = inv.empty;
    filled = λ j lt f.
        let (e, lo, sent) = inv.filled j lt f in
        (
          e,
          omega arith,
          get_elem?-append s.pushes (elem ∷ []) (at j) (omega (arith, inv.counted)) ∙ sent,
        );
    claimed = λ pos lt. elim (Bool-cases (pos == r.tail)) [
      | inl last ↦
          let e : pos ≡ r.tail = ground arith in
          let f : at (pos % cap) ≡ r.tail = rw e (rw inv.capacity at there.0) in omega arith
      | inr old ↦ inv.claimed pos (ground arith)
    ];
    taken = inv.taken;
    fits =
        Fits-update (record r { tail = suc r.tail }) (s.pushes ++ elem ∷ []) at full
          (push_copy elem r.tail)
          (omega arith, there, get_elem?-append_self s.pushes elem r.tail inv.counted)
          (λ j ne. Fits-claim_push r s.pushes at full elem inv.counted (s.place j) (inv.fits j));
    unique = unique-update (push_copy elem r.tail) (λ pos t j tj.
        let e : r.tail ≡ pos = some-injective r.tail pos t in
        elim (holder (s.place j) pos tj (inv.fits j)) [
          | inl (lo, f) ↦ absurd (omega arith)
          | inr (lo, f) ↦ absurd (omega (arith, inv.ordered))
        ]);
    left = AllLeft-append elem s.pops inv.left;
    once = inv.once;
  })

  -- A pop claims the cell at the head.
  pub claim_pop :
      IsAt r.cap at full r.head true
      → Inv cap
          (suc n)
          (record {
            ring = record r { head = suc r.head };
            place = update s.place i (pop_copy r.head);
            pushes = s.pushes ++ [];
            pops = s.pops ++ [];
          })
          at
          full
  claim_pop there =
      rw (append-nil s.pushes, append-nil s.pops)
        (record {
          capacity = inv.capacity;
          counted = inv.counted;
          early = omega (arith, inv.early);
          ordered =
              let (e, lo, sent) = inv.filled (r.head % r.cap) (in_ring r.head) there.1 in
              omega (arith, there.0);
          placed = inv.placed;
          empty = inv.empty;
          filled = inv.filled;
          claimed = inv.claimed;
          taken = λ pos lt. elim (Bool-cases (pos == r.head)) [
            | inl last ↦
                let e : pos ≡ r.head = ground arith in inr (rw e (rw inv.capacity at there))
            | inr old ↦ inv.taken pos (ground arith)
          ];
          fits =
              Fits-update (record r { head = suc r.head }) s.pushes at full (pop_copy r.head)
                (omega arith, there)
                (λ j ne. Fits-claim_pop r s.pushes at full (s.place j) (inv.fits j));
          unique = unique-update (pop_copy r.head) (λ pos t j tj.
              let e : r.head ≡ pos = some-injective r.head pos t in
              elim (holder (s.place j) pos tj (inv.fits j)) [
                | inl (lo, f) ↦
                    let g : true ≡ false = sym there.1 ∙ ap (λ (x : ℕ). full (x % r.cap)) e ∙ f.1 in
                    absurd (cc)
                | inr (lo, f) ↦ absurd (omega arith)
              ]);
          left = inv.left;
          once = inv.once;
        })
