-- ===== src/Benchmark/Summary.antt =====
-- run_benchmark.py: what `benchmark` computes from the runs. Every quotient is a pair of whole
-- numbers, `none` where the source divides by zero or an index is out of range.
use switchyard_llm.Prelude.{
  ℕ, ◌+◌, ◌-◌, ◌*◌, ◌/◌, min, nat_eq, List, [], ◌∷◌, Option, none, some, length, leb, ◌==◌,
  if◌then◌else◌,
}
use switchyard_llm.Prelude.Int.{ℤ, pos, ◌-ℤ◌}
use switchyard_llm.Routing.{sorted}
use switchyard_llm.Workload.{get_elem?}
use switchyard_llm.Benchmark.{Totals}

infixl 5 ◌>>=◌
abbrev pub ◌>>=◌ {ℓ κ} : {A : Type ℓ} {B : Type κ} → Option A → (A → Option B) → Option B
none >>= f = none
some a >>= f = f a

-- `_pct`, with `math.ceil` as the division rounded up.
unfoldable pub pct : List ℕ → ℕ → Option ℕ
unfolding sorted get_elem?
pct [] p = some 0
pct (v ∷ vs) p =
    let s = sorted leb (v ∷ vs) in get_elem? s (min (length s - 1) ((p * length s + 99) / 100 - 1))

pub record Ratio : Type 0 where
  pub num : ℤ
  pub den : ℕ

-- `_drop`
unfoldable pub drop_of : ℕ → ℕ → Ratio
drop_of baseline cache_on =
    if baseline == 0
    then record { num = pos 0; den = 1 }
    else record { num = pos baseline -ℤ pos cache_on; den = baseline }

unfoldable pub ratio : ℕ → ℕ → Option Ratio
ratio a n = if n == 0 then none else some (record { num = pos a; den = n })

pub record Headline (Rate : Type 0) : Type 0 where
  pub d : Rate
  pub hit_rate : Ratio
  pub cost_reduction : Ratio
  pub p50_drop : Ratio
  pub p95_drop : Ratio
  pub p99_drop : Ratio
  pub baseline_p95_ms : ℕ
  pub cache_p95_ms : ℕ
  pub baseline_cost_usd : ℕ
  pub cache_cost_usd : ℕ

unfoldable pub headline : {R : Type 0} → R → ℕ → Totals → Totals → Option (Headline R)
unfolding pct drop_of ratio
headline d n base on = do
  hit_rate ← ratio on.hits n
  base50 ← pct base.latencies_ms 50
  on50 ← pct on.latencies_ms 50
  base95 ← pct base.latencies_ms 95
  on95 ← pct on.latencies_ms 95
  base99 ← pct base.latencies_ms 99
  on99 ← pct on.latencies_ms 99
  some (record {
    d = d;
    hit_rate = hit_rate;
    cost_reduction = drop_of base.cost on.cost;
    p50_drop = drop_of base50 on50;
    p95_drop = drop_of base95 on95;
    p99_drop = drop_of base99 on99;
    baseline_p95_ms = base95;
    cache_p95_ms = on95;
    baseline_cost_usd = base.cost;
    cache_cost_usd = on.cost;
  })

pub record SweepRow (Threshold : Type 0) : Type 0 where
  pub threshold : Threshold
  pub hit_rate : Ratio
  pub false_hit_rate : Ratio
  pub precision : Option Ratio
  pub recall : Option Ratio

unfoldable pub sweep_row : {T : Type 0} → ℕ → T → Totals → Option (SweepRow T)
unfolding ratio
sweep_row n tau r = do
  hit_rate ← ratio r.hits n
  false_hit_rate ← ratio r.wrong_hits n
  some (record {
    threshold = tau;
    hit_rate = hit_rate;
    false_hit_rate = false_hit_rate;
    precision = ratio r.correct_hits r.hits;
    recall = ratio r.correct_hits r.should_hit_total;
  })
