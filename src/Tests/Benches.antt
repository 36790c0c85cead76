-- ===== src/Tests/Benches.antt =====
-- The benchmark at concrete requests.
use switchyard_llm.Prelude.{
  ◌*◌, ℕ, ◌+◌, ◌≤◌, ◌≡◌, refl, string_eq, Bool, true, false, List, [], ◌∷◌, some, length, String,
}
use switchyard_llm.Schemas.{Json}
use switchyard_llm.Signals.{PriceBook}
use switchyard_llm.Cache.Keys.{ScopeKey}
use switchyard_llm.Workload.{WorkloadItem, request_for, generate_workload}
use switchyard_llm.Workload.Corpus.{intents}
use switchyard_llm.Benchmark.{Totals, nothing_run, Reading, run_off, new_cache, run_on}
use switchyard_llm.Benchmark.Counts.{hits_due, list_price, runs_compared}
use switchyard_llm.Benchmark.Recall.{correct_hits_due}
use switchyard_llm.Benchmark.Results.{Bench, Results}
use switchyard_llm.Benchmark.Markdown.{Texts, Args, default_args}
use switchyard_llm.Tests.Vectors.{flat}
use switchyard_llm.Tests.Workloads.{spell, same_base, counter}

abbrev dumps : Json → String
dumps j = ""

abbrev dumps_scope : ScopeKey → String
dumps_scope k = k.model

abbrev prices : PriceBook
prices = ("fast", record { input = 2; output = 3 }) ∷ []

abbrev clock : ℕ → Reading
clock i = record { get_now = i; set_now = i; search_s = 1; set_s = 2 }

abbrev item : Bool → WorkloadItem
item due = record {
  request = request_for "fast" "What is the capital of Peru?";
  base_id = "0:8";
  should_hit = due;
  completion_tokens = 100;
}

runs_compared_example :
    (base on : Totals) × (run_off dumps prices
        (item false ∷ item true ∷ [])
        (5 ∷ 6 ∷ [])
        nothing_run
      ≡ some base)
    × (run_on flat dumps dumps_scope prices clock 0
          (item false ∷ item true ∷ [])
          ((7, 1) ∷ (7, 1) ∷ [])
          (5 ∷ 6 ∷ [])
          (new_cache flat 90, nothing_run)
        ≡ some on)
    × (length base.latencies_ms ≡ 2)
    × (length on.latencies_ms ≡ 2)
    × (on.hits ≡ on.correct_hits + on.wrong_hits)
    × (on.hits ≤ 2)
    × (on.should_hit_total ≡ hits_due (item false ∷ item true ∷ []))
    × (base.cost ≡ list_price dumps prices (item false ∷ item true ∷ []))
    × (on.cost ≤ base.cost)
runs_compared_example =
    runs_compared dumps prices flat dumps_scope clock 90 (item false ∷ item true ∷ [])
      ((7, 1) ∷ (7, 1) ∷ []) (5 ∷ 6 ∷ []) refl refl

correct_hits_due_example :
    (items : List WorkloadItem) × (t : Totals) × (generate_workload counter spell intents 2 3 0
        "fast"
      ≡ some items)
    × (run_on flat dumps dumps_scope prices clock 0 items
          ((7, 1) ∷ (7, 1) ∷ [])
          (5 ∷ 6 ∷ [])
          (new_cache flat 90, nothing_run)
        ≡ some t)
    × (t.correct_hits ≤ t.should_hit_total)
correct_hits_due_example =
    correct_hits_due dumps prices flat dumps_scope counter spell 2 3 0 "fast" clock 90
      ((7, 1) ∷ (7, 1) ∷ []) (5 ∷ 6 ∷ []) same_base refl refl

abbrev bench : Bench
bench = record {
  faiss = flat;
  random = counter;
  spell = spell;
  dumps = dumps;
  dumps_scope = dumps_scope;
  embed = λ t. (7, 1);
  Real = ℕ;
  log = λ x. x;
  lognormvariate = λ mu sigma seed k. mu + sigma * k;
  clock = clock;
}

abbrev texts : Texts bench
texts = record {
  percent = λ x. "50.0%";
  percent_rate = λ d. "20.0%";
  number = λ n. "3";
  real = λ x. "0.6";
  similarity = λ x. "0.9";
  bars-percent = λ x. refl;
  bars-percent_rate = λ d. refl;
  bars-number = λ n. refl;
  bars-real = λ x. refl;
  bars-similarity = λ x. refl;
}

-- The defaults, but for fewer requests and thresholds.
abbrev args : Args bench texts
args = record (default_args bench texts (λ r. 2) (λ r. 90) (λ r. 600)) {
  n = 3;
  sweep = 70 ∷ 95 ∷ [];
  model = "fast";
  json_out = some "results.json";
}
