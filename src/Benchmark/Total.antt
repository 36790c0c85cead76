-- ===== src/Benchmark/Total.antt =====
-- run_benchmark.py: the benchmark returns.
use switchyard_llm.Prelude.{
  ℕ, zero, suc, map, ◌+◌, ◌≤◌, ◌<◌, ◌≡◌, refl, sym, ap, ◌∙◌, String, nat_eq, List, [], ◌∷◌, some,
  length, All, arith,
}
use switchyard_llm.Prelude.Int.{pos}
use switchyard_llm.Signals.{PriceBook}
use switchyard_llm.Workload.{Base, WorkloadItem}
use switchyard_llm.Workload.Corpus.{intents}
use switchyard_llm.Workload.Labels.{generate_workload-Labelled}
use switchyard_llm.Benchmark.{Totals}
use switchyard_llm.Benchmark.Counts.{runs_compared}
use switchyard_llm.Benchmark.Percentile.{pct_lem}
use switchyard_llm.Benchmark.Summary.{
  pct, Ratio, drop_of, ratio, Headline, headline, SweepRow, sweep_row,
}
use switchyard_llm.Benchmark.Results.{
  Bench, draws, sample_miss_latencies, Report, reports, Results, config_of, prepare, sweep_rows,
  benchmark_at, benchmark,
}

pct-some : (l : List ℕ) (p : ℕ) → 0 < length l → 0 < p → p ≤ 100 → (x : ℕ) × (pct l p ≡ some x)
pct-some [] p h a b = absurd (omega (arith, h))
pct-some (v ∷ vs) p h a b = let r = pct_lem v vs p a b in (r.0, r.1)

ratio-some : (a n : ℕ) → 0 < n → (r : Ratio) × (ratio a n ≡ some r)
unfolding ratio
ratio-some a n h = (record { num = pos a; den = n }, ground (arith, h, nat_eq.beq_iff n 0))

headline-some :
    {R : Type 0} (d : R) (n : ℕ) (base on : Totals)
    → 0 < n
    → length base.latencies_ms ≡ n
    → length on.latencies_ms ≡ n
    → (h : Headline R) × (headline d n base on ≡ some h)
      × (h.d ≡ d)
      × (h.baseline_cost_usd ≡ base.cost)
      × (h.cache_cost_usd ≡ on.cost)
unfolding headline
headline-some d n base on some_run size size' =
    let positive : 0 < length base.latencies_ms = omega (arith, some_run, size) in
    let positive' : 0 < length on.latencies_ms = omega (arith, some_run, size') in
    let rate = ratio-some on.hits n some_run in
    let b50 = pct-some base.latencies_ms 50 positive (omega arith) (omega arith) in
    let o50 = pct-some on.latencies_ms 50 positive' (omega arith) (omega arith) in
    let b95 = pct-some base.latencies_ms 95 positive (omega arith) (omega arith) in
    let o95 = pct-some on.latencies_ms 95 positive' (omega arith) (omega arith) in
    let b99 = pct-some base.latencies_ms 99 positive (omega arith) (omega arith) in
    let o99 = pct-some on.latencies_ms 99 positive' (omega arith) (omega arith) in
    let head : Headline _ = record {
      d = d;
      hit_rate = rate.0;
      cost_reduction = drop_of base.cost on.cost;
      p50_drop = drop_of b50.0 o50.0;
      p95_drop = drop_of b95.0 o95.0;
      p99_drop = drop_of b99.0 o99.0;
      baseline_p95_ms = b95.0;
      cache_p95_ms = o95.0;
      baseline_cost_usd = base.cost;
      cache_cost_usd = on.cost;
    } in
    (head, rw (rate.1, b50.1, o50.1, b95.1, o95.1, b99.1, o99.1) refl, refl, refl, refl)

sweep_row-some :
    {T : Type 0} (n : ℕ) (tau : T) (t : Totals)
    → 0 < n
    → (row : SweepRow T) × (sweep_row n tau t ≡ some row)
unfolding sweep_row
sweep_row-some n tau t some_run =
    let hits = ratio-some t.hits n some_run in
    let wrong = ratio-some t.wrong_hits n some_run in
    (
      record {
        threshold = tau;
        hit_rate = hits.0;
        false_hit_rate = wrong.0;
        precision = ratio t.correct_hits t.hits;
        recall = ratio t.correct_hits t.should_hit_total;
      },
      rw (hits.1, wrong.1) refl,
    )

module _ (b : Bench) where
  length-prepare : (items : List WorkloadItem) → length (prepare b items) ≡ length items
  unfolding prepare
  length-prepare [] = refl
  length-prepare (item ∷ items) = ap suc (length-prepare items)

  sweep_rows-some :
      (book : PriceBook) (n : ℕ) (items : List WorkloadItem) (misses : List ℕ)
      (sweep : List b.faiss.Similarity)
      → 0 < n
      → length misses ≡ length items
      → (rows : List (SweepRow b.faiss.Similarity)) × (sweep_rows b book n items misses sweep
          ≡ some rows)
        × (length rows ≡ length sweep)
  unfolding sweep_rows
  sweep_rows-some book n items misses [] some_run size = ([], refl, refl)
  sweep_rows-some book n items misses (tau ∷ sweep) some_run size =
      let compared =
        runs_compared b.dumps book b.faiss b.dumps_scope b.clock tau items (prepare b items) misses
          (length-prepare items) size in
      let on = compared.1 in
      let row = sweep_row-some n tau on some_run in
      let rest = sweep_rows-some book n items misses sweep some_run size in
      (row.0 ∷ rest.0, rw (sweep_rows, compared.3, row.1, rest.1) refl, ap suc rest.2)

  length-draws : (mu sigma : b.Real) (seed k n : ℕ) → length (draws b mu sigma seed k n) ≡ n
  unfolding draws
  length-draws mu sigma seed k zero = refl
  length-draws mu sigma seed k (suc n) = ap suc (length-draws mu sigma seed (suc k) n)

  -- What a run reports: a row for every threshold of the sweep, and a cost with the cache that is at
  -- most the cost without.
  abbrev pub IsReport : List b.faiss.Similarity → Report b → Type 0
  IsReport sweep (head, rows) =
      (length rows ≡ length sweep) × (head.cache_cost_usd ≤ head.baseline_cost_usd)

  module _ (n : ℕ) (threshold : b.faiss.Similarity) (sweep : List b.faiss.Similarity) (seed : ℕ)
      (miss_median miss_sigma : b.Real) (model : String) (book : PriceBook) (some_run : 0 < n)
      (injective : (x y : Base) → b.spell x ≡ b.spell y → x ≡ y) where
    benchmark_at_lem :
        (d : b.random.Rate)
        → (report : Report b) × (benchmark_at b n d threshold sweep seed miss_median miss_sigma
              model book intents
            ≡ some report)
          × (report.0.d ≡ d)
          × IsReport sweep report
    unfolding benchmark_at sample_miss_latencies
    benchmark_at_lem d =
        let made = generate_workload-Labelled b.random b.spell n d seed model injective in
        let items = made.0 in
        let misses = sample_miss_latencies b n (seed + 1) miss_median miss_sigma in
        let size : length misses ≡ length items =
          length-draws (b.log miss_median) miss_sigma (seed + 1) 0 n ∙ sym made.2 in
        let compared =
          runs_compared b.dumps book b.faiss b.dumps_scope b.clock threshold items (prepare b items)
            misses (length-prepare items) size in
        let head =
          headline-some d n compared.0 compared.1 some_run (compared.4 ∙ made.2)
            (compared.5 ∙ made.2) in
        let rows = sweep_rows-some book n items misses sweep some_run size in
        (
          (head.0, rows.0),
          rw (made.1, compared.2, compared.3, head.1, rows.1) refl,
          head.2,
          (rows.2, omega (arith, head.3, head.4, compared.10)),
        )

    reports_lem :
        (ds : List b.random.Rate)
        → (runs : List (Report b)) × (reports b n ds threshold sweep seed miss_median miss_sigma
              model book intents
            ≡ some runs)
          × (map (λ (run : Report b). run.0.d) runs ≡ ds)
          × All (IsReport sweep) runs
    unfolding reports
    reports_lem [] = ([], refl, refl, tt)
    reports_lem (d ∷ ds) =
        let (report, here, rate, right) = benchmark_at_lem d in
        let (runs, rest, rates, rights) = reports_lem ds in
        (report ∷ runs, rw (here, rest, reports) refl, rw (rate, rates) refl, (right, rights))

  -- With at least one request and distinct spellings, the benchmark returns its results, with their configuration and a run
  -- for every duplicate rate, in their order: each has a row for every threshold of the sweep, and
  -- its cost with the cache is at most its cost without.
  pub benchmark_lem :
      (n : ℕ) (ds : List b.random.Rate) (threshold : b.faiss.Similarity)
      (sweep : List b.faiss.Similarity) (seed : ℕ) (miss_median miss_sigma : b.Real)
      (model : String) (book : PriceBook)
      → 0 < n
      → ((x y : Base) → b.spell x ≡ b.spell y → x ≡ y)
      → (results : Results b) × (benchmark b n ds threshold sweep seed miss_median miss_sigma model
            book intents
          ≡ some results)
        × (results.config ≡ config_of b n ds threshold seed miss_median miss_sigma model intents)
        × (map (λ (run : Report b). run.0.d) results.runs ≡ ds)
        × All (IsReport sweep) results.runs
  unfolding benchmark
  benchmark_lem n ds threshold sweep seed miss_median miss_sigma model book some_run injective =
      let (runs, returned, rates, rights) =
        reports_lem n threshold sweep seed miss_median miss_sigma model book some_run injective
          ds in
      let results : Results b = record {
        config = config_of b n ds threshold seed miss_median miss_sigma model intents;
        runs = runs;
      } in
      (results, rw (returned) refl, refl, rates, rights)
