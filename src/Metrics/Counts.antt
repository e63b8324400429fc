-- ===== src/Metrics/Counts.antt =====
-- What the counters of src/metrics.c count.
use ggmk.Base.{
  modify, length-modify, get_or-modify, sym, ==-zero_of_pos, ℕ, zero, suc, ◌==◌, ◌≤◌, ◌<◌, ◌≡◌, ◌∙◌,
  refl, some, List, [], ◌∷◌, arith, if◌then◌else◌, get_or, length, replicate, dec_lt, lt→ltb,
  le→ltb, lt→leb, le→leb,
}
use ggmk.Metrics.{Metrics, add64, init, inc}

-- all rows have an entry for each metric
abbrev pub AllWide : List (List ℕ) → Type 0
AllWide [] = Unit
AllWide (row ∷ rows) = (length row ≡ 16) × AllWide rows

-- The sum of a metric over the tenants, in 64 bits.
unfoldable pub sum_tenants : List (List ℕ) → ℕ → ℕ
sum_tenants [] metric_id = 0
sum_tenants (row ∷ rows) metric_id = add64 (get_or row metric_id 0) (sum_tenants rows metric_id)

-- The arrays have their sizes, and the tenants' counters of each metric add up to the global one.
pub record IsBalanced (m : Metrics) : Type 0 where
  pub metrics : length m.global ≡ 16
  pub tenants : length m.per_tenant ≡ 16
  pub wide : AllWide m.per_tenant
  pub some_tenants : m.n_tenants ≤ 16
  pub balanced :
      (metric_id : ℕ)
      → metric_id < 16
      → get_or m.global metric_id 0 ≡ sum_tenants m.per_tenant metric_id

AllWide-modify :
    (rows : List (List ℕ)) (t i : ℕ) (f : ℕ → ℕ)
    → AllWide rows
    → AllWide (modify rows t (λ row. modify row i f))
unfolding modify
AllWide-modify [] t i f w = tt
AllWide-modify (row ∷ rows) zero i f (e, w) = (length-modify row i f ∙ e, w)
AllWide-modify (row ∷ rows) (suc t) i f (e, w) = (e, AllWide-modify rows t i f w)

sum_tenants-modify :
    (rows : List (List ℕ)) (t i j delta : ℕ)
    → AllWide rows
    → t < length rows
    → i < 16
    → sum_tenants (modify rows t (λ row. modify row i (λ c. add64 c delta))) j
      ≡ (if i == j then add64 (sum_tenants rows j) delta else sum_tenants rows j)
unfolding sum_tenants modify
sum_tenants-modify [] t i j delta w lt small = absurd (omega arith)
sum_tenants-modify (row ∷ rows) zero i j delta (e, w) lt small =
    ground (arith, get_or-modify row i j (λ (c : ℕ). add64 c delta) 0)
sum_tenants-modify (row ∷ rows) (suc t) i j delta (e, w) lt small =
    ground (arith, sum_tenants-modify rows t i j delta w)

get_or-zeros : (k j : ℕ) → get_or {A = ℕ} (replicate k 0) j 0 ≡ 0
get_or-zeros zero j = refl
get_or-zeros (suc k) zero = refl
get_or-zeros (suc k) (suc j) = get_or-zeros k j

sum_tenants-zeros : (k j : ℕ) → sum_tenants (replicate k (replicate 16 0)) j ≡ 0
unfolding sum_tenants
sum_tenants-zeros zero j = refl
sum_tenants-zeros (suc k) j = rw (sum_tenants-zeros k j, get_or-zeros 16 j) refl

-- `gmk_metrics_init` for 1 to 16 tenants leaves balanced counters at 0.
pub init-IsBalanced :
    (n : ℕ) → 0 < n → n ≤ 16 → (m : Metrics) × (init n ≡ some m) × IsBalanced m × (m.n_tenants ≡ n)
unfolding init
init-IsBalanced n pos few =
    rw (==-zero_of_pos n pos, le→ltb 16 n few)
      (
        _,
        refl,
        record {
          metrics = refl;
          tenants = refl;
          wide = omega arith;
          some_tenants = few;
          balanced = λ j small. get_or-zeros 16 j ∙ sym (sum_tenants-zeros 16 j);
        },
        refl,
      )

module _ {m : Metrics} (b : IsBalanced m) (tenant metric_id delta : ℕ)
    (valid : tenant < m.n_tenants) where
  -- An increment of `gmk_metric_inc` for a tenant that there is keeps the tenants' counters adding up
  -- to the global one in 64 bits, for each metric.
  pub inc-IsBalanced : IsBalanced (inc m tenant metric_id delta)
  unfolding inc
  inc-IsBalanced = elim (dec_lt metric_id 16) [
    | no beyond ↦ rw (le→leb 16 metric_id (omega arith)) b
    | yes lt ↦
        rw (lt→leb metric_id 16 lt, lt→ltb tenant m.n_tenants valid)
          (record {
            metrics = length-modify m.global metric_id _ ∙ b.metrics;
            tenants = length-modify m.per_tenant tenant _ ∙ b.tenants;
            wide = AllWide-modify m.per_tenant tenant metric_id (λ (c : ℕ). add64 c delta) b.wide;
            some_tenants = b.some_tenants;
            balanced = λ j small. ground (
              arith,
              get_or-modify m.global metric_id j (λ (c : ℕ). add64 c delta) 0,
              sum_tenants-modify m.per_tenant tenant metric_id j delta b.wide,
              b.balanced j,
              b.metrics,
              b.tenants,
              b.some_tenants,
            );
          })
  ]

-- an increment: the tenant, the metric and the amount
abbrev pub Inc : Type 0
Inc = ℕ × ℕ × ℕ

-- the increments of a list, in order
unfoldable pub inc_all : Metrics → List Inc → Metrics
inc_all m [] = m
inc_all m ((tenant, metric_id, delta) ∷ incs) = inc_all (inc m tenant metric_id delta) incs

-- each increment is for one of `n` tenants
abbrev pub ForTenants : ℕ → List Inc → Type 0
ForTenants n [] = Unit
ForTenants n ((tenant, metric_id, delta) ∷ incs) = (tenant < n) × ForTenants n incs

n_tenants-inc : (m : Metrics) (t i d : ℕ) → (inc m t i d).n_tenants ≡ m.n_tenants
unfolding inc
n_tenants-inc m t i d = ground arith

inc_all-IsBalanced :
    (m : Metrics) (incs : List Inc)
    → IsBalanced m
    → ForTenants m.n_tenants incs
    → IsBalanced (inc_all m incs)
unfolding inc_all
inc_all-IsBalanced m [] b v = b
inc_all-IsBalanced m ((t, i, d) ∷ incs) b (valid, v) =
    inc_all-IsBalanced (inc m t i d) incs (inc-IsBalanced b t i d valid)
      (rw (n_tenants-inc m t i d) v)

-- From `gmk_metrics_init` for 1 to 16 tenants on, whatever increments `gmk_metric_inc` makes for these
-- tenants, the tenants' counters of each metric add up to its global counter in 64 bits.
pub init-inc_all-IsBalanced :
    (n : ℕ) (incs : List Inc)
    → 0 < n
    → n ≤ 16
    → ForTenants n incs
    → (m : Metrics) × (init n ≡ some m) × IsBalanced (inc_all m incs)
init-inc_all-IsBalanced n incs pos few v =
    let (m, done, b, same) = init-IsBalanced n pos few in
    (m, done, inc_all-IsBalanced m incs b (rw same v))
