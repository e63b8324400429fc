-- ===== src/Spinlock/Waits.antt =====
-- A turn at the lock of include/ggmk/arch/spinlock.h brings the thread that is served nearer to the end of
-- its release.
use ggmk.Base.{
  ℕ, suc, ◌-◌, ◌%◌, ◌^◌, ◌≤◌, ◌<◌, ◌≡◌, ◌≢◌, ◌⊎◌, ◌∙◌, refl, sym, ap, inl, inr, arith, Bool, true,
  false, ◌==◌, if◌then◌else◌, Bool-cases,
}
use mathlib.Core.Path.{subst}
use ggmk.Spinlock.{Place, outside, waiting, inside, leaving, Turn, access, System, step}
use ggmk.Spinlock.Order.{Front, first_there, Ordered, distinct}
use ggmk.Spinlock.Next.{Next, untouched, touched}
use ggmk.Spinlock.Moves.{step-Next}
use ggmk.Spinlock.Fair.{IsFair, later-IsFair, Eventually, now, later}

-- Thread `j` waits with the ticket `k`, and the ticket `first` is served.
pub record Waits (n first k j : ℕ) (s : System) (turns : ℕ → Turn) : Type 0 where
  pub fair : IsFair n turns
  pub last : ℕ
  pub owner : ℕ → ℕ
  pub ordered : Ordered n s first last owner
  pub not_after : first ≤ k
  pub within : k < last
  pub mine : owner k ≡ j
  pub waits : s.place j ≡ waiting (k % 2 ^ 32)

abbrev pub rank : Place → ℕ
rank outside = 0
rank (waiting ticket) = 2
rank inside = 1
rank (leaving current) = 0

module _ {n : ℕ} (few : n ≤ 2 ^ 32) {first k j : ℕ} {s : System} {turns : ℕ → Turn}
    (w : Waits n first k j s turns) where
  abbrev m : Turn
  m = turns 0

  abbrev head : ℕ
  head = w.owner first

  abbrev s' : System
  s' = step s m

  pub r : Next n s m first w.last w.owner s'
  r = step-Next few w.ordered m (w.fair.below 0)

  pub kept : (i : ℕ) → m.thread ≢ i → s'.place i ≡ s.place i
  unfolding step
  kept i ne = untouched few w.ordered m (w.fair.below 0) (access s.lock m (s.place m.thread)).1 i ne

  pub mover :
      (i : ℕ) (p : Place) → m.thread ≡ i → s.place i ≡ p → s'.place i ≡ (access s.lock m p).1
  unfolding step
  mover i p who here =
      ap s'.place (sym who)
      ∙ touched few w.ordered m (w.fair.below 0) (access s.lock m (s.place m.thread)).1
      ∙ ap (λ (q : Place). (access s.lock m q).1) (ap s.place who ∙ here)

  pub again :
      (f : ℕ)
      → r.first' ≡ f
      → f ≤ k
      → s'.place j ≡ waiting (k % 2 ^ 32)
      → Waits n f k j s' (λ t. turns (suc t))
  again f e lo place = record {
    fair = later-IsFair n turns w.fair;
    last = r.last';
    owner = r.owner';
    ordered = subst (λ (x : ℕ). Ordered n s' x r.last' r.owner') e r.ordered;
    not_after = lo;
    within = omega (arith, w.within, r.longer);
    mine = r.agrees k w.within ∙ w.mine;
    waits = place;
  }

  waits_behind : r.first' < k → s'.place j ≡ waiting (k % 2 ^ 32)
  waits_behind lo =
      ap s'.place (sym (r.agrees k w.within ∙ w.mine))
      ∙ r.ordered.behind k lo (omega (arith, w.within, r.longer))

  head_there : r.first' ≡ first → s'.place head ≢ outside
  head_there e out =
      first_there s'.lock (s'.place (r.owner' r.first'))
        (r.ordered.front (omega (arith, w.not_after, w.within, r.longer)))
        (ap s'.place (ap r.owner' e ∙ r.agrees first (omega (arith, w.not_after, w.within))) ∙ out)

  -- The first of the threads comes nearer to the end of its release, or did not want to leave.
  abbrev Nearer : Place → Type 0
  Nearer p =
      (rank (s'.place head) < rank p)
      ⊎ ((rank (s'.place head) ≡ rank p) × ((m.thread ≢ head) ⊎ (m.leaves ≡ false)))

  head_moves :
      r.first' ≡ first
      → m.thread ≡ head
      → (p : Place) → s.place head ≡ p
      → Front s.lock p
      → Nearer p
  unfolding access
  head_moves e who outside here f = absurd (first_there s.lock outside f refl)
  head_moves e who (waiting ticket) here (inl f) =
      let served : (s.lock.serving == ticket) ≡ true = ground arith in
      let new : s'.place head ≡ inside = mover head (waiting ticket) who here ∙ rw served refl in
      rw new (inl (omega arith))
  head_moves e who (waiting ticket) here (inr (inl f)) = absurd (cc)
  head_moves e who (waiting ticket) here (inr (inr f)) = absurd (cc)
  head_moves e who inside here f = elim (Bool-cases m.leaves) [
    | inl leaves ↦
        let new : s'.place head ≡ leaving s.lock.serving =
          mover head inside who here
          ∙ ap (λ (b : Bool). if b then leaving s.lock.serving else inside) leaves in
        rw new (inl (omega arith))
    | inr remains ↦
        let new : s'.place head ≡ inside =
          mover head inside who here
          ∙ ap (λ (b : Bool). if b then leaving s.lock.serving else inside) remains in
        rw new (inr (refl, inr remains))
  ]
  head_moves e who (leaving current) here f =
      absurd (head_there e (mover head (leaving current) who here))

  nearer : r.first' ≡ first → Nearer (s.place head)
  nearer e = elim (Bool-cases (m.thread == head)) [
    | inl same ↦
        head_moves e (ground arith) (s.place head) refl
          (w.ordered.front (omega (arith, w.not_after, w.within)))
    | inr other ↦
        let ne : m.thread ≢ head = λ f. ground arith in inr (ap rank (kept head ne), inl ne)
  ]

  progress :
      first < k
      → Waits n (suc first) k j s' (λ t. turns (suc t))
        ⊎ ((v : Waits n first k j s' (λ t. turns (suc t))) × (v.owner first ≡ head)
            × Nearer (s.place head))
  unfolding again
  progress lt = elim r.gone [
    | inr (e, who, some_one, current, left) ↦ inl (
        again (suc first) e (omega arith)
          (kept j (λ f. distinct few w.ordered k lt w.within (sym who ∙ f ∙ sym w.mine)) ∙ w.waits))
    | inl e ↦ inr (
      again first e w.not_after (waits_behind (omega (arith, e))),
      r.agrees first (omega (arith, w.within)),
      nearer e,
    )
  ]

  -- The time until the first of the threads has given the lock to the next, from the time of its turn on.
  pub gone_after :
      (d : ℕ)
      → first < k
      → (turns d).thread ≡ head
      → (turns d).leaves ≡ true
      → ((v : Waits n first k j s' (λ t. turns (suc t)))
          → rank (s'.place (v.owner first)) < rank (s.place head)
          → Eventually (Waits n (suc first) k j) s' (λ t. turns (suc t)))
      → ((v : Waits n first k j s' (λ t. turns (suc t)))
          → rank (s'.place (v.owner first)) ≡ rank (s.place head)
          → (d' : ℕ) → d ≡ suc d'
          → v.owner first ≡ head
          → Eventually (Waits n (suc first) k j) s' (λ t. turns (suc t)))
      → Eventually (Waits n (suc first) k j) s turns
  gone_after d lt who out less same = elim (progress lt) [
    | inl v ↦ later (now v)
    | inr (v, e, inl lower) ↦ later (less v (rw e lower))
    | inr (v, e, inr (equal, idle)) ↦ elim (Bool-cases (d == 0)) [
      | inl at_once ↦
          let z : d ≡ 0 = ground arith in
          elim idle [
            | inl ne ↦ absurd (ne (ap (λ (x : ℕ). (turns x).thread) (sym z) ∙ who))
            | inr no_leave ↦ absurd (
                let f : false ≡ true =
                  sym no_leave ∙ ap (λ (x : ℕ). (turns x).leaves) (sym z) ∙ out in
                cc)
          ]
      | inr in_time ↦ later (same v (rw e equal) (d - 1) (ground arith) e)
    ]
  ]

  pub head_below : w.owner first < n
  head_below =
      w.ordered.bounded head
        (first_there s.lock (s.place head) (w.ordered.front (omega (arith, w.not_after, w.within))))
