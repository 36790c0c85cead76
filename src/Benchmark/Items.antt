-- ===== src/Benchmark/Items.antt =====
-- run_benchmark.py: how one request of the run with the cache is answered.
use switchyard_llm.Prelude.{
  ℕ, ◌+◌, ◌*◌, ◌≡◌, refl, ap, ◌∙◌, String, string_eq, nat_eq, Option, none, some,
}
use switchyard_llm.Schemas.{Json, ChatCompletionResponse}
use switchyard_llm.Signals.{PriceBook}
use switchyard_llm.Cache.{Faiss, get, store}
use switchyard_llm.Cache.Invariant.{IsValid}
use switchyard_llm.Cache.Serving.{Answered, get-Answered}
use switchyard_llm.Cache.Eviction.{Evicted, set_total}
use switchyard_llm.Cache.Keys.{ScopeKey, build_scope_key}
use switchyard_llm.Workload.{WorkloadItem}
use switchyard_llm.Benchmark.{
  Totals, Reading, counted, price, billed, hit, BenchCache, answer_of, after_lookup, run_item,
}

module _ (dumps : Json → String) (book : PriceBook) (faiss : Faiss)
    (dumps_scope : ScopeKey → String) where
  -- How a request is answered: from the cache, or upstream with its answer stored.
  pub data Answer (item : WorkloadItem) (vec : faiss.Vector) (reading : Reading)
      (cache : BenchCache faiss) (t : Totals) (state : BenchCache faiss × Totals) : Type 0 where
    from_cache :
        (r : ChatCompletionResponse) (latency : ℕ)
        → get reading.get_now (build_scope_key dumps_scope item.request) vec cache
          ≡ (state.0, some r)
        → state.1 ≡ hit item r.id latency (counted item t)
        → Answer item vec reading cache t state
    from_upstream :
        (cache' : BenchCache faiss) (latency : ℕ)
        → get reading.get_now (build_scope_key dumps_scope item.request) vec cache ≡ (cache', none)
        → Evicted
            (store reading.set_now
              (build_scope_key dumps_scope item.request)
              vec
              (answer_of dumps item)
              cache')
            state.0
        → state.1 ≡ billed (price dumps book item) latency (counted item t)
        → Answer item vec reading cache t state

  abbrev pub Ran :
      WorkloadItem → faiss.Vector → ℕ → ℕ → Reading → BenchCache faiss → Totals → Type 0
  Ran item vec embed_s miss reading cache t =
      (state : BenchCache faiss × Totals) × (run_item faiss dumps dumps_scope book item
          (vec, embed_s) miss reading (cache, t)
        ≡ some state)
      × IsValid state.0
      × Answer item vec reading cache t state

  run-Answered :
      (item : WorkloadItem) (vec : faiss.Vector) (embed_s miss : ℕ) (reading : Reading)
      (cache : BenchCache faiss) (t : Totals) (o : BenchCache faiss × Option ChatCompletionResponse)
      → get reading.get_now (build_scope_key dumps_scope item.request) vec cache ≡ o
      → Answered reading.get_now (build_scope_key dumps_scope item.request) vec cache o
      → Ran item vec embed_s miss reading cache t
  unfolding run_item after_lookup
  run-Answered item vec embed_s miss reading cache t (cache', some r) e (v, results, near, s) =
      let latency = (embed_s + reading.search_s) * 1000 in
      (
        (cache', hit item r.id latency (counted item t)),
        ap
            (after_lookup faiss dumps dumps_scope book item vec embed_s miss reading
              (counted item t))
            e,
        v,
        from_cache r latency e refl,
      )
  run-Answered item vec embed_s miss reading cache t (cache', none) e v =
      let scope = build_scope_key dumps_scope item.request in
      let (cache'', runs, kept) =
        set_total reading.set_now scope vec (answer_of dumps item) cache' v in
      let latency = (embed_s + reading.search_s + reading.set_s) * 1000 + miss * 1000 in
      let t' : Totals = billed (price dumps book item) latency (counted item t) in
      (
        (cache'', t'),
        ap
              (after_lookup faiss dumps dumps_scope book item vec embed_s miss reading
                (counted item t))
              e
            ∙ ap (λ (o : Option (BenchCache faiss)). elim o [ none ↦ none | some c ↦ some (c, t') ])
                runs,
        kept.valid,
        from_upstream cache' latency e kept refl,
      )

  pub run_item_lem :
      (item : WorkloadItem) (p : faiss.Vector × ℕ) (miss : ℕ) (reading : Reading)
      (cache : BenchCache faiss) (t : Totals)
      → IsValid cache
      → Ran item p.0 p.1 miss reading cache t
  run_item_lem item p miss reading cache t v =
      let scope = build_scope_key dumps_scope item.request in
      run-Answered item p.0 p.1 miss reading cache t (get reading.get_now scope p.0 cache) refl
        (get-Answered reading.get_now scope p.0 cache v)
