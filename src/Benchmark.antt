-- ===== src/Benchmark.antt =====
-- bench/run_benchmark.py: the runs of the benchmark. Times are whole numbers of a unit of time, and
-- `Reading` is what the clocks say around a request's lookup and write. A run is `none` where an
-- index is out of range or the cache's `set` raises.
pub mod Summary
pub mod Results
pub mod Markdown
pub mod Tables
pub mod Reporting
pub mod Items
pub mod Counts
pub mod Recall
pub mod Percentile
pub mod Total
use switchyard_llm.Prelude.{
  ℕ, zero, suc, ◌+◌, ◌*◌, ◌/◌, max, String, string_eq, Bool, true, false, List, [], ◌∷◌, ◌++◌,
  Option, none, some, ◌==◌, if◌then◌else◌,
}
use switchyard_llm.Schemas.{Json, text, Message, Choice, Usage, ChatCompletionResponse}
use switchyard_llm.Signals.{PriceBook, cost_usd}
use switchyard_llm.Cache.{Faiss, SemanticCache, get, set}
use switchyard_llm.Cache.Keys.{ScopeKey, build_scope_key, build_query_text}
use switchyard_llm.Workload.{WorkloadItem}
use Prim.Native.String.{◌++◌ as append, count as chars}

-- `_prompt_tokens`
unfoldable pub prompt_tokens : String → ℕ
prompt_tokens t = max 1 (chars t / 4)

abbrev pub answer_message : String → Message
answer_message base_id = record {
  role = "assistant";
  content = text (append "answer::" base_id);
  extra = [];
}

-- `_response`
unfoldable pub response : String → String → ℕ → ℕ → ChatCompletionResponse
response model base_id prompt completion = record {
  id = base_id;
  object = "chat.completion";
  created = 0;
  model = model;
  choices = record { index = 0; message = answer_message base_id; finish_reason = none } ∷ [];
  usage = some (record {
    prompt_tokens = prompt;
    completion_tokens = completion;
    total_tokens = prompt + completion;
  });
}

pub record Totals : Type 0 where
  pub hits : ℕ
  pub correct_hits : ℕ
  pub wrong_hits : ℕ
  pub should_hit_total : ℕ
  pub cost : ℕ
  pub latencies_ms : List ℕ

abbrev pub nothing_run : Totals
nothing_run = record {
  hits = 0;
  correct_hits = 0;
  wrong_hits = 0;
  should_hit_total = 0;
  cost = 0;
  latencies_ms = [];
}

pub record Reading : Type 0 where
  pub get_now : ℕ
  pub set_now : ℕ
  pub search_s : ℕ
  pub set_s : ℕ

unfoldable pub counted : WorkloadItem → Totals → Totals
counted item t = record t {
  should_hit_total = if item.should_hit then suc t.should_hit_total else t.should_hit_total;
}

-- The list price of a request that goes upstream.
unfoldable pub price : (Json → String) → PriceBook → WorkloadItem → ℕ
price dumps book item =
    cost_usd book item.request.model (prompt_tokens (build_query_text dumps item.request))
      item.completion_tokens

unfoldable pub billed : ℕ → ℕ → Totals → Totals
billed cost latency_ms t = record t {
  cost = t.cost + cost;
  latencies_ms = t.latencies_ms ++ latency_ms ∷ [];
}

-- A hit, by the answer's id and the latency.
unfoldable pub hit : WorkloadItem → String → ℕ → Totals → Totals
hit item id latency_ms t = record t {
  hits = suc t.hits;
  correct_hits = if id == item.base_id then suc t.correct_hits else t.correct_hits;
  wrong_hits = if id == item.base_id then t.wrong_hits else suc t.wrong_hits;
  latencies_ms = t.latencies_ms ++ latency_ms ∷ [];
}

unfoldable pub answer_of : (Json → String) → WorkloadItem → ChatCompletionResponse
unfolding response
answer_of dumps item =
    response item.request.model item.base_id (prompt_tokens (build_query_text dumps item.request))
      item.completion_tokens

-- `_run` with the cache off.
unfoldable pub run_off :
    (Json → String) → PriceBook → List WorkloadItem → List ℕ → Totals → Option Totals
unfolding counted billed
run_off dumps book [] misses t = some t
run_off dumps book (item ∷ items) [] t = none
run_off dumps book (item ∷ items) (miss ∷ misses) t =
    run_off dumps book items misses (billed (price dumps book item) (miss * 1000) (counted item t))

module _ (faiss : Faiss) where
  abbrev pub BenchCache : Type 0
  BenchCache = SemanticCache faiss ChatCompletionResponse

  -- `SemanticCache(embedder, threshold=threshold)`
  abbrev pub new_cache : faiss.Similarity → BenchCache
  new_cache threshold = record {
    threshold = threshold;
    ttl = none;
    max_entries = 10000;
    indexes = [];
    entries = [];
    lru = [];
    next_id = 0;
    dim = none;
  }

module _ (faiss : Faiss) (dumps : Json → String) (dumps_scope : ScopeKey → String) where
  -- What follows the lookup of a request.
  unfoldable pub after_lookup :
      PriceBook
      → WorkloadItem
      → faiss.Vector
      → ℕ
      → ℕ
      → Reading
      → Totals
      → BenchCache faiss × Option ChatCompletionResponse
      → Option (BenchCache faiss × Totals)
  after_lookup book item vec embed_s miss reading t (cache, some r) =
      some (cache, hit item r.id ((embed_s + reading.search_s) * 1000) t)
  after_lookup book item vec embed_s miss reading t (cache, none) =
      let scope = build_scope_key dumps_scope item.request in
      let latency_ms = (embed_s + reading.search_s + reading.set_s) * 1000 + miss * 1000 in
      elim (set reading.set_now scope vec (answer_of dumps item) cache) [
        | none ↦ none
        | some cache' ↦ some (cache', billed (price dumps book item) latency_ms t)
      ]

  -- One request with the cache on.
  unfoldable pub run_item :
      PriceBook
      → WorkloadItem
      → faiss.Vector × ℕ
      → ℕ
      → Reading
      → BenchCache faiss × Totals
      → Option (BenchCache faiss × Totals)
  run_item book item (vec, embed_s) miss reading (cache, t) =
      after_lookup book item vec embed_s miss reading (counted item t)
        (get reading.get_now (build_scope_key dumps_scope item.request) vec cache)

  -- `_run` with the cache on, from the request of number `i`.
  unfoldable pub run_on :
      PriceBook
      → (ℕ → Reading)
      → ℕ
      → List WorkloadItem
      → List (faiss.Vector × ℕ)
      → List ℕ
      → BenchCache faiss × Totals
      → Option Totals
  run_on book clock i [] prepared misses (cache, t) = some t
  run_on book clock i (item ∷ items) (p ∷ prepared) (miss ∷ misses) state =
      elim (run_item book item p miss (clock i) state) [
        | none ↦ none
        | some state' ↦ run_on book clock (suc i) items prepared misses state'
      ]
  run_on book clock i (item ∷ items) _ _ state = none
