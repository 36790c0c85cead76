-- ===== src/Benchmark/Counts.antt =====
-- run_benchmark.py: what a run counts, and the costs of the runs with and without the cache.
use switchyard_llm.Prelude.{
  ℕ, suc, ◌+◌, ◌*◌, ◌≤◌, ◌≡◌, refl, sym, ◌∙◌, subst, String, string_eq, nat_eq, List, [], ◌∷◌, some,
  lookup, length, length-append, arith, if◌then◌else◌,
}
use switchyard_llm.Schemas.{Json}
use switchyard_llm.Signals.{PriceBook}
use switchyard_llm.Cache.{Faiss, contains}
use switchyard_llm.Cache.Invariant.{IsValid}
use switchyard_llm.Cache.Keys.{ScopeKey}
use switchyard_llm.Workload.{WorkloadItem}
use switchyard_llm.Benchmark.Items.{Answer, from_cache, from_upstream, run_item_lem}
use switchyard_llm.Benchmark.{
  Totals, nothing_run, Reading, counted, price, billed, hit, run_off, BenchCache, new_cache, run_on,
}

-- The requests whose base appeared before.
abbrev pub hits_due : List WorkloadItem → ℕ
hits_due [] = 0
hits_due (item ∷ items) = (if item.should_hit then 1 else 0) + hits_due items

-- The list price of all requests.
abbrev pub list_price : (Json → String) → PriceBook → List WorkloadItem → ℕ
list_price dumps book [] = 0
list_price dumps book (item ∷ items) = price dumps book item + list_price dumps book items

module _ (dumps : Json → String) (book : PriceBook) where
  -- What the requests `items` add to the totals.
  pub record IsCounted (items : List WorkloadItem) (t t' : Totals) : Type 0 where
    pub split :
        t'.hits + (t.correct_hits + t.wrong_hits) ≡ t.hits + (t'.correct_hits + t'.wrong_hits)
    pub more : t.hits ≤ t'.hits
    pub hit_bound : t'.hits ≤ t.hits + length items
    pub answered : length t'.latencies_ms ≡ length t.latencies_ms + length items
    pub due : t'.should_hit_total ≡ t.should_hit_total + hits_due items
    pub cost_bound : t'.cost ≤ t.cost + list_price dumps book items

  IsCounted-none : (t : Totals) → IsCounted [] t t
  IsCounted-none t = record {
    split = refl;
    more = omega arith;
    hit_bound = omega arith;
    answered = omega arith;
    due = omega arith;
    cost_bound = omega arith;
  }

  pub IsCounted-more :
      (item : WorkloadItem) (items : List WorkloadItem) (t t' t'' : Totals)
      → IsCounted (item ∷ []) t t'
      → IsCounted items t' t''
      → IsCounted (item ∷ items) t t''
  IsCounted-more item items t t' t'' a b = record {
    split = omega (arith, a.split, b.split);
    more = omega (arith, a.more, b.more);
    hit_bound = omega (arith, a.hit_bound, b.hit_bound);
    answered = omega (arith, a.answered, b.answered);
    due = omega (arith, a.due, b.due);
    cost_bound = omega (arith, a.cost_bound, b.cost_bound);
  }

  billed-IsCounted :
      (item : WorkloadItem) (latency : ℕ) (t : Totals)
      → IsCounted (item ∷ []) t (billed (price dumps book item) latency (counted item t))
  unfolding billed counted
  billed-IsCounted item latency t = record {
    split = refl;
    more = omega arith;
    hit_bound = omega arith;
    answered = length-append t.latencies_ms (latency ∷ []);
    due = ground arith;
    cost_bound = omega arith;
  }

  hit-IsCounted :
      (item : WorkloadItem) (id : String) (latency : ℕ) (t : Totals)
      → IsCounted (item ∷ []) t (hit item id latency (counted item t))
  unfolding hit counted
  hit-IsCounted item id latency t = record {
    split = ground arith;
    more = omega arith;
    hit_bound = omega arith;
    answered = length-append t.latencies_ms (latency ∷ []);
    due = ground arith;
    cost_bound = omega arith;
  }

  billed_parts :
      (item : WorkloadItem) (latency : ℕ) (t : Totals)
      → let t' = billed (price dumps book item) latency (counted item t) in
        (t'.hits ≡ t.hits)
        × (length t'.latencies_ms ≡ length t.latencies_ms + 1)
        × (t'.cost ≡ t.cost + price dumps book item)
  unfolding billed counted
  billed_parts item latency t = (refl, length-append t.latencies_ms (latency ∷ []), refl)

  -- The run without the cache.
  pub run_off_lem :
      (items : List WorkloadItem) (misses : List ℕ) (t : Totals)
      → length misses ≡ length items
      → (t' : Totals) × (run_off dumps book items misses t ≡ some t')
        × (t'.hits ≡ t.hits)
        × (length t'.latencies_ms ≡ length t.latencies_ms + length items)
        × (t'.cost ≡ t.cost + list_price dumps book items)
  unfolding run_off
  run_off_lem [] misses t e = (t, refl, refl, omega arith, omega arith)
  run_off_lem (item ∷ items) [] t e = absurd (omega (arith, e))
  run_off_lem (item ∷ items) (miss ∷ misses) t e =
      let t1 = billed (price dumps book item) (miss * 1000) (counted item t) in
      let (t', runs, same, size, cost) = run_off_lem items misses t1 (omega (arith, e)) in
      let step = billed_parts item (miss * 1000) t in
      (t', runs, same ∙ step.0, omega (arith, size, step.1), omega (arith, cost, step.2))

  module _ (faiss : Faiss) (dumps_scope : ScopeKey → String) where
    pub new_cache-IsValid : (threshold : faiss.Similarity) → IsValid (new_cache faiss threshold)
    unfolding lookup contains
    new_cache-IsValid threshold = record {
      covered = λ i. refl;
      distinct = tt;
      scoped = λ scope index i here held. ground (arith, here);
      fresh = λ i le. refl;
    }

    answered-IsCounted :
        (item : WorkloadItem) (vec : faiss.Vector) (reading : Reading) (cache : BenchCache faiss)
        (t : Totals) (state : BenchCache faiss × Totals)
        → Answer dumps book faiss dumps_scope item vec reading cache t state
        → IsCounted (item ∷ []) t state.1
    answered-IsCounted item vec reading cache t state (from_cache r latency e now) =
        subst (IsCounted (item ∷ []) t) (sym now) (hit-IsCounted item r.id latency t)
    answered-IsCounted item vec reading cache t state (from_upstream cache' latency e kept now) =
        subst (IsCounted (item ∷ []) t) (sym now) (billed-IsCounted item latency t)

    run_on-IsCounted :
        (clock : ℕ → Reading) (i : ℕ) (items : List WorkloadItem)
        (prepared : List (faiss.Vector × ℕ)) (misses : List ℕ) (cache : BenchCache faiss)
        (t : Totals)
        → length prepared ≡ length items
        → length misses ≡ length items
        → IsValid cache
        → (t' : Totals) × (run_on faiss dumps dumps_scope book clock i items prepared misses
              (cache, t)
            ≡ some t')
          × IsCounted items t t'
    unfolding run_on
    run_on-IsCounted clock i [] prepared misses cache t a b v = (t, refl, IsCounted-none t)
    run_on-IsCounted clock i (item ∷ items) [] misses cache t a b v = absurd (omega (arith, a))
    run_on-IsCounted clock i (item ∷ items) (p ∷ prepared) [] cache t a b v =
        absurd (omega (arith, b))
    run_on-IsCounted clock i (item ∷ items) (p ∷ prepared) (miss ∷ misses) cache t a b v =
        let (state, step, v', how) =
          run_item_lem dumps book faiss dumps_scope item p miss (clock i) cache t v in
        let (t', runs, rest) =
          run_on-IsCounted clock (suc i) items prepared misses state.0 state.1 (omega (arith, a))
            (omega (arith, b)) v' in
        (
          t',
          rw (run_on, step) runs,
          IsCounted-more item items t state.1 t'
              (answered-IsCounted item p.0 (clock i) cache t state how) rest,
        )

    -- Both runs over the same requests return, and answer each of them. The hits of the run with the
    -- cache are the correct and the wrong ones, and no more than the requests; the due hits are the
    -- requests labelled so. The run without the cache costs the list price of every request, and the
    -- run with the cache costs no more. There are as many embeddings and upstream latencies as
    -- requests.
    pub runs_compared :
        (clock : ℕ → Reading) (threshold : faiss.Similarity) (items : List WorkloadItem)
        (prepared : List (faiss.Vector × ℕ)) (misses : List ℕ)
        → length prepared ≡ length items
        → length misses ≡ length items
        → (base on : Totals) × (run_off dumps book items misses nothing_run ≡ some base)
          × (run_on faiss dumps dumps_scope book clock 0 items prepared misses
                (new_cache faiss threshold, nothing_run)
              ≡ some on)
          × (length base.latencies_ms ≡ length items)
          × (length on.latencies_ms ≡ length items)
          × (on.hits ≡ on.correct_hits + on.wrong_hits)
          × (on.hits ≤ length items)
          × (on.should_hit_total ≡ hits_due items)
          × (base.cost ≡ list_price dumps book items)
          × (on.cost ≤ base.cost)
    runs_compared clock threshold items prepared misses a b =
        let (base, runs_base, same, size, cost) = run_off_lem items misses nothing_run b in
        let (on, runs_on, c) =
          run_on-IsCounted clock 0 items prepared misses (new_cache faiss threshold) nothing_run a b
            (new_cache-IsValid threshold) in
        (
          base,
          on,
          runs_base,
          runs_on,
          omega (arith, size),
          omega (arith, c.answered),
          omega (arith, c.split),
          omega (arith, c.hit_bound),
          omega (arith, c.due),
          omega (arith, cost),
          omega (arith, c.cost_bound, cost),
        )
