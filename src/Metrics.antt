-- ===== src/Metrics.antt =====
-- src/metrics.c: atomic counters, one for each metric and one for each tenant and metric.
pub mod Counts
mod Tests
use ggmk.Base.{
  modify, ℕ, zero, suc, ◌+◌, ◌%◌, ◌^◌, ◌==◌, Bool, ◌||◌, Option, none, some, List, [], ◌∷◌, ltb,
  leb, if◌then◌else◌, get_or, replicate, map,
}

abbrev pub metric_count : ℕ
metric_count = 16

abbrev pub max_tenants : ℕ
max_tenants = 16

-- `gmk_metrics_t`
pub record Metrics : Type 0 where
  pub global : List ℕ
  pub per_tenant : List (List ℕ)
  pub n_tenants : ℕ

-- `uint64_t` addition
abbrev pub add64 : ℕ → ℕ → ℕ
add64 a b = (a + b) % 2 ^ 64

-- `gmk_metrics_init`: the metrics, or `none` for -1.
unfoldable pub init : ℕ → Option Metrics
init n_tenants =
    if n_tenants == 0 || ltb max_tenants n_tenants
    then none
    else some (record {
      global = replicate metric_count 0;
      per_tenant = replicate max_tenants (replicate metric_count 0);
      n_tenants = n_tenants;
    })

-- `gmk_metric_inc`
unfoldable pub inc : Metrics → ℕ → ℕ → ℕ → Metrics
unfolding modify
inc m tenant metric_id delta =
    let added = record m { global = modify m.global metric_id (λ c. add64 c delta) } in
    if leb metric_count metric_id
    then m
    else if ltb tenant m.n_tenants
    then record added {
      per_tenant = modify m.per_tenant tenant (λ row. modify row metric_id (λ c. add64 c delta));
    }
    else added

-- `gmk_metric_get`
unfoldable pub get : Metrics → ℕ → ℕ
get m metric_id = if leb metric_count metric_id then 0 else get_or m.global metric_id 0

-- `gmk_metric_get_tenant`
unfoldable pub get_tenant : Metrics → ℕ → ℕ → ℕ
get_tenant m tenant metric_id =
    if leb metric_count metric_id || leb m.n_tenants tenant
    then 0
    else get_or (get_or m.per_tenant tenant []) metric_id 0

-- the loop of `gmk_metrics_reset` over the tenants
pub reset_tenants : ℕ → List (List ℕ) → List (List ℕ)
reset_tenants zero rows = rows
reset_tenants (suc n) [] = []
reset_tenants (suc n) (row ∷ rows) = replicate metric_count 0 ∷ reset_tenants n rows

-- `gmk_metrics_reset`
unfoldable pub reset : Metrics → Metrics
unfolding reset_tenants
reset m = record m {
  global = replicate metric_count 0;
  per_tenant = reset_tenants m.n_tenants m.per_tenant;
}

-- `gmk_metric_inc` by one, if there are metrics
abbrev pub inc_if : Option Metrics → ℕ → ℕ → Option Metrics
inc_if none tenant metric_id = none
inc_if (some m) tenant metric_id = some (inc m tenant metric_id 1)
