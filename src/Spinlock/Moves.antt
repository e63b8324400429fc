-- ===== src/Spinlock/Moves.antt =====
-- A turn of a thread at the lock of include/ggmk/arch/spinlock.h keeps the order of the tickets.
use ggmk.Base.{
  ℕ, suc, ◌+◌, ◌%◌, ◌^◌, ◌≤◌, ◌<◌, ◌≡◌, ◌∙◌, refl, sym, ap, inl, inr, arith, ◌==◌, Bool-cases,
}
use ggmk.Spinlock.{Place, outside, waiting, inside, leaving, Turn, access, System, update, step}
use ggmk.Spinlock.Crowd.{at_lock, crowd-update}
use ggmk.Spinlock.Order.{
  Front, first_loaded, waiting_there, Ordered, ticket_eq, apart, distinct, not_waiting,
}
use ggmk.Spinlock.Next.{Next, untouched, touched, still_below, stays}
use ggmk.Spinlock.Draws.{drawn}

module _ {n : ℕ} {s : System} {first last : ℕ} {owner : ℕ → ℕ} (few : n ≤ 2 ^ 32)
    (o : Ordered n s first last owner) (m : Turn) (lt : m.thread < n) where
  abbrev i : ℕ
  i = m.thread

  abbrev moved : Place → System
  moved p = record { lock = (access s.lock m p).0; place = update s.place i (access s.lock m p).1 }

  -- The first of the threads moves on and stays the first.
  advanced :
      (p : Place)
      → (owner first ≡ i)
      → first < last
      → Front s.lock p
      → at_lock (s.place i) ≡ 1
      → at_lock p ≡ 1
      → Next n s m first last owner (record { lock = s.lock; place = update s.place i p })
  advanced p mine some_one f one one' =
      let place' = update s.place i p in
      let counted = crowd-update n s.place i p lt in
      record {
        first' = first;
        last' = last;
        owner' = owner;
        ordered = record {
          next = o.next;
          serving = o.serving;
          counted = omega (arith, counted, one, one', o.counted);
          front = λ within. rw (mine, touched few o m lt p) f;
          behind = λ k lo hi.
              untouched few o m lt p (owner k) (λ e. distinct few o k lo hi (mine ∙ e))
              ∙ o.behind k lo hi;
          bounded = still_below few o m lt p;
          known = λ j there. elim (Bool-cases (i == j)) [
            | inl same ↦ let e : i ≡ j = ground arith in (first, omega arith, some_one, mine ∙ e)
            | inr apart ↦
                o.known j (λ out. there (untouched few o m lt p j (λ e. ground arith) ∙ out))
          ];
        };
        longer = omega arith;
        agrees = λ k below. refl;
        gone = inl refl;
      }

  -- The thread whose ticket is served is the first.
  first_served :
      (ticket : ℕ)
      → s.place i ≡ waiting ticket
      → s.lock.serving ≡ ticket
      → (owner first ≡ i) × (first < last)
  first_served ticket here e =
      let (k, lo, hi, mine) = o.known i (waiting_there (s.place i) here) in
      elim (Bool-cases (first == k)) [
        | inl same ↦ let f : first ≡ k = ground arith in (ap owner f ∙ mine, omega arith)
        | inr later ↦
            let g = o.behind k (ground arith) hi in
            absurd (
              apart few o k (ground arith) hi
                (e ∙ ticket_eq few o ticket (k % 2 ^ 32) here (ap s.place (sym mine) ∙ g)))
      ]

  -- The first of the threads gives the lock to the next.
  released :
      (current : ℕ)
      → s.place i ≡ leaving current
      → Next n s m first last owner (moved (leaving current))
  unfolding access
  released current here =
      let (mine, some_one) =
        not_waiting few o i (λ out. let f : outside ≡ leaving current = sym out ∙ here in cc)
          (λ ticket e. let f : waiting ticket ≡ leaving current = sym e ∙ here in cc) in
      let loaded : current ≡ s.lock.serving =
        first_loaded s.lock (s.place (owner first)) current (o.front some_one)
          (ap s.place mine ∙ here) in
      let place' = update s.place i outside in
      let counted = crowd-update n s.place i outside lt in
      let one : at_lock (s.place i) ≡ 1 = ap at_lock here in
      let other : (k : ℕ) → first < k → k < last → place' (owner k) ≡ s.place (owner k) = λ k lo hi.
        untouched few o m lt outside (owner k) (λ e. distinct few o k lo hi (mine ∙ e)) in
      let serving' : (current + 1) % 2 ^ 32 ≡ suc first % 2 ^ 32 =
        omega (arith, loaded, o.serving) in
      record {
        first' = suc first;
        last' = last;
        owner' = owner;
        ordered = record {
          next = o.next;
          serving = serving';
          counted = omega (arith, counted, one, o.counted);
          front = λ within. inl (
              other (suc first) (omega arith) within
              ∙ o.behind (suc first) (omega arith) within
              ∙ ap waiting (sym serving'));
          behind = λ k lo hi. other k (omega arith) hi ∙ o.behind k (omega arith) hi;
          bounded = still_below few o m lt outside;
          known = λ j there. elim (Bool-cases (i == j)) [
            | inl same ↦
                let e : i ≡ j = ground arith in
                absurd (there (ap place' (sym e) ∙ touched few o m lt outside))
            | inr apart ↦
                let (k, lo, hi, yours) =
                  o.known j
                    (λ out. there (untouched few o m lt outside j (λ e. ground arith) ∙ out)) in
                elim (Bool-cases (first == k)) [
                  | inl same ↦
                      let e : first ≡ k = ground arith in
                      let f : i ≡ j = sym mine ∙ ap owner e ∙ yours in absurd (ground arith)
                  | inr later ↦ (k, ground arith, hi, yours)
                ]
          ];
        };
        longer = omega arith;
        agrees = λ k below. refl;
        gone = inr (refl, sym mine, some_one, current, here);
      }

  moved-Next : (p : Place) → s.place i ≡ p → Next n s m first last owner (moved p)
  unfolding access
  moved-Next outside here = elim (Bool-cases m.enters) [
    | inl enters ↦ drawn few o m lt here enters
    | inr stays_out ↦ simp stays_out (stays few o m lt outside here)
  ]
  moved-Next (waiting ticket) here = elim (Bool-cases (s.lock.serving == ticket)) [
    | inl served ↦
        let (mine, some_one) = first_served ticket here (ground arith) in
        rw served (advanced inside mine some_one (inr (inl refl)) (ap at_lock here) refl)
    | inr not_yet ↦ rw not_yet (stays few o m lt (waiting ticket) here)
  ]
  moved-Next inside here = elim (Bool-cases m.leaves) [
    | inl leaves ↦
        let (mine, some_one) =
          not_waiting few o i (λ out. let f : outside ≡ inside = sym out ∙ here in cc)
            (λ ticket e. let f : waiting ticket ≡ inside = sym e ∙ here in cc) in
        simp leaves
          (advanced (leaving s.lock.serving) mine some_one (inr (inr refl)) (ap at_lock here) refl)
    | inr remains ↦ simp remains (stays few o m lt inside here)
  ]
  moved-Next (leaving current) here = released current here

  pub step-Next : Next n s m first last owner (step s m)
  unfolding step
  step-Next = moved-Next (s.place i) refl
