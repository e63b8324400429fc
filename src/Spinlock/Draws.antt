-- ===== src/Spinlock/Draws.antt =====
-- A thread that draws a ticket at the lock of include/ggmk/arch/spinlock.h keeps the order of the tickets.
use ggmk.Base.{
  ℕ, suc, ◌+◌, ◌%◌, ◌^◌, ◌≤◌, ◌<◌, ◌≡◌, ◌≢◌, ◌∙◌, refl, sym, ap, inl, inr, arith, true, false, ◌==◌,
  Bool-cases,
}
use ggmk.Spinlock.{outside, waiting, Turn, access, System, update}
use ggmk.Spinlock.Crowd.{at_lock, crowd-update}
use ggmk.Spinlock.Order.{first_there, waiting_there, Ordered, apart}
use ggmk.Spinlock.Next.{Next, untouched, touched, still_below}

module _ {n : ℕ} {s : System} {first last : ℕ} {owner : ℕ → ℕ} (few : n ≤ 2 ^ 32)
    (o : Ordered n s first last owner) (m : Turn) (lt : m.thread < n) where
  abbrev i : ℕ
  i = m.thread

  -- A thread draws a ticket.
  pub drawn :
      s.place i ≡ outside
      → m.enters ≡ true
      → Next n s m first last owner (record {
        lock = (access s.lock m outside).0;
        place = update s.place i (access s.lock m outside).1;
      })
  unfolding access
  drawn here enters =
      let lock' = record s.lock { next = (s.lock.next + 1) % 2 ^ 32 } in
      let place' = update s.place i (waiting s.lock.next) in
      let owner' = update owner last i in
      let old : (k : ℕ) → k < last → owner' k ≡ owner k =
        λ k below. (let e : (last == k) ≡ false = ground arith in rw e refl) in
      let new : owner' last ≡ i = (let e : (last == last) ≡ true = ground arith in rw e refl) in
      let other : (j : ℕ) → s.place j ≢ outside → place' j ≡ s.place j = λ j there.
        untouched few o m lt (waiting s.lock.next) j (λ e. there (ap s.place (sym e) ∙ here)) in
      let counted = crowd-update n s.place i (waiting s.lock.next) lt in
      let zero_here : at_lock (s.place i) ≡ 0 = ap at_lock here in
      rw enters (record {
        first' = first;
        last' = suc last;
        owner' = owner';
        ordered = record {
          next = omega (arith, o.next);
          serving = o.serving;
          counted = omega (arith, counted, zero_here, o.counted);
          front = λ within. elim (Bool-cases (first == last)) [
            | inl same ↦
                let e : first ≡ last = ground arith in
                inl (
                  ap place' (ap owner' e ∙ new)
                  ∙ touched few o m lt (waiting s.lock.next)
                  ∙ ap waiting (o.next ∙ ap (λ (k : ℕ). k % 2 ^ 32) (sym e) ∙ sym o.serving))
            | inr more ↦
                let below : first < last = ground arith in
                let f = o.front below in
                rw
                  (
                    old first below,
                    other (owner first) (first_there s.lock (s.place (owner first)) f),
                  )
                  f
          ];
          behind = λ k lo hi. elim (Bool-cases (k == last)) [
            | inl same ↦
                let e : k ≡ last = ground arith in
                ap place' (ap owner' e ∙ new)
                ∙ touched few o m lt (waiting s.lock.next)
                ∙ ap waiting (o.next ∙ ap (λ (k : ℕ). k % 2 ^ 32) (sym e))
            | inr more ↦
                let below : k < last = ground arith in
                let f = o.behind k lo below in
                ap place' (old k below) ∙ other (owner k) (waiting_there (s.place (owner k)) f) ∙ f
          ];
          bounded = still_below few o m lt (waiting s.lock.next);
          known = λ j there. elim (Bool-cases (i == j)) [
            | inl same ↦
                let e : i ≡ j = ground arith in
                (last, omega (arith, o.counted), omega arith, new ∙ e)
            | inr apart ↦
                let (k, lo, hi, mine) = o.known j (λ out.
                  there (untouched few o m lt (waiting s.lock.next) j (λ e. ground arith) ∙ out)) in
                (k, lo, omega arith, old k hi ∙ mine)
          ];
        };
        longer = omega arith;
        agrees = old;
        gone = inl refl;
      })
