-- ===== src/Benchmark/Results.antt =====
-- run_benchmark.py: `benchmark` and what it returns; `none` where a run raises.
use switchyard_llm.Prelude.{ℕ, zero, suc, ◌+◌, String, nat_eq, List, [], ◌∷◌, Option, some}
use switchyard_llm.Schemas.{Json}
use switchyard_llm.Signals.{PriceBook}
use switchyard_llm.Cache.{Faiss}
use switchyard_llm.Cache.Keys.{ScopeKey, build_query_text}
use switchyard_llm.Workload.{Base, Random, WorkloadItem, distinct_base_count, generate_workload}
use switchyard_llm.Workload.Corpus.{Intent}
use switchyard_llm.Benchmark.{nothing_run, Reading, run_off, new_cache, run_on}
use switchyard_llm.Benchmark.Summary.{◌>>=◌, Headline, headline, SweepRow, sweep_row}

-- What the benchmark calls from outside: the embedder with the time that it takes, the clocks of the
-- runs, `math.log`, and `lognormvariate` by mu, sigma, the seed and the number of the draw.
pub record Bench : Type 1 where
  pub faiss : Faiss
  pub random : Random
  pub spell : Base → String
  pub dumps : Json → String
  pub dumps_scope : ScopeKey → String
  pub embed : String → faiss.Vector × ℕ
  pub Real : Type 0
  pub log : Real → Real
  pub lognormvariate : Real → Real → ℕ → ℕ → ℕ
  pub clock : ℕ → Reading

module _ (b : Bench) where
  -- The samples from the draw of number `k`.
  unfoldable pub draws : b.Real → b.Real → ℕ → ℕ → ℕ → List ℕ
  draws mu sigma seed k zero = []
  draws mu sigma seed k (suc n) = b.lognormvariate mu sigma seed k ∷ draws mu sigma seed (suc k) n

  unfoldable pub sample_miss_latencies : ℕ → ℕ → b.Real → b.Real → List ℕ
  unfolding draws
  sample_miss_latencies n seed median sigma = draws (b.log median) sigma seed 0 n

  -- `_prepare`
  unfoldable pub prepare : List WorkloadItem → List (b.faiss.Vector × ℕ)
  prepare [] = []
  prepare (item ∷ items) = b.embed (build_query_text b.dumps item.request) ∷ prepare items

  unfoldable pub sweep_rows :
      PriceBook
      → ℕ
      → List WorkloadItem
      → List ℕ
      → List b.faiss.Similarity
      → Option (List (SweepRow b.faiss.Similarity))
  unfolding sweep_row prepare
  sweep_rows book n items misses [] = some []
  sweep_rows book n items misses (tau ∷ sweep) = do
    r ←
        run_on b.faiss b.dumps b.dumps_scope book b.clock 0 items (prepare items) misses
          (new_cache b.faiss tau, nothing_run)
    row ← sweep_row n tau r
    rows ← sweep_rows book n items misses sweep
    some (row ∷ rows)

  -- What `benchmark` lists of a run.
  abbrev pub Report : Type 0
  Report = Headline b.random.Rate × List (SweepRow b.faiss.Similarity)

  -- The body of `benchmark`'s loop over the duplicate rates.
  unfoldable pub benchmark_at :
      ℕ
      → b.random.Rate
      → b.faiss.Similarity
      → List b.faiss.Similarity
      → ℕ
      → b.Real
      → b.Real
      → String
      → PriceBook
      → List Intent
      → Option Report
  unfolding headline sweep_rows prepare sample_miss_latencies
  benchmark_at n d threshold sweep seed miss_median miss_sigma model book corpus = do
    items ← generate_workload b.random b.spell corpus n d seed model
    let misses = sample_miss_latencies n (seed + 1) miss_median miss_sigma
    base ← run_off b.dumps book items misses nothing_run
    on ←
        run_on b.faiss b.dumps b.dumps_scope book b.clock 0 items (prepare items) misses
          (new_cache b.faiss threshold, nothing_run)
    head ← headline d n base on
    rows ← sweep_rows book n items misses sweep
    some (head, rows)

  unfoldable pub reports :
      ℕ
      → List b.random.Rate
      → b.faiss.Similarity
      → List b.faiss.Similarity
      → ℕ
      → b.Real
      → b.Real
      → String
      → PriceBook
      → List Intent
      → Option (List Report)
  unfolding benchmark_at
  reports n [] threshold sweep seed miss_median miss_sigma model book corpus = some []
  reports n (d ∷ ds) threshold sweep seed miss_median miss_sigma model book corpus = do
    run ← benchmark_at n d threshold sweep seed miss_median miss_sigma model book corpus
    runs ← reports n ds threshold sweep seed miss_median miss_sigma model book corpus
    some (run ∷ runs)

  pub record Config : Type 0 where
    pub n : ℕ
    pub d_values : List b.random.Rate
    pub threshold : b.faiss.Similarity
    pub seed : ℕ
    pub model : String
    pub embedding_model : String
    pub miss_latency_median_s : b.Real
    pub miss_latency_sigma : b.Real
    pub distinct_bases : ℕ

  pub record Results : Type 0 where
    pub config : Config
    pub runs : List Report

  unfoldable pub config_of :
      ℕ
      → List b.random.Rate
      → b.faiss.Similarity
      → ℕ
      → b.Real
      → b.Real
      → String
      → List Intent
      → Config
  unfolding distinct_base_count
  config_of n d_values threshold seed miss_median miss_sigma model corpus = record {
    n = n;
    d_values = d_values;
    threshold = threshold;
    seed = seed;
    model = model;
    embedding_model = "all-MiniLM-L6-v2";
    miss_latency_median_s = miss_median;
    miss_latency_sigma = miss_sigma;
    distinct_bases = distinct_base_count corpus;
  }

  unfoldable pub benchmark :
      ℕ
      → List b.random.Rate
      → b.faiss.Similarity
      → List b.faiss.Similarity
      → ℕ
      → b.Real
      → b.Real
      → String
      → PriceBook
      → List Intent
      → Option Results
  unfolding reports config_of
  benchmark n d_values threshold sweep seed miss_median miss_sigma model book corpus = do
    runs ← reports n d_values threshold sweep seed miss_median miss_sigma model book corpus
    some (record {
      config = config_of n d_values threshold seed miss_median miss_sigma model corpus;
      runs = runs;
    })
