-- ===== src/Benchmark/Recall.antt =====
-- run_benchmark.py on the requests of workload.py: the recall of the run with the cache.
use switchyard_llm.Prelude.{
  ℕ, suc, ◌+◌, ◌≤◌, ◌≡◌, refl, sym, ap, subst, String, string_eq, nat_eq, true, List, [], ◌∷◌,
  Option, some, Dict, lookup, insert, lookup-insert, length, arith, ◌==◌, Bool-cases, inl, inr,
}
use switchyard_llm.Schemas.{Json, ChatCompletionResponse}
use switchyard_llm.Signals.{PriceBook}
use switchyard_llm.Cache.{Faiss, Entry, get}
use switchyard_llm.Cache.Invariant.{IsValid}
use switchyard_llm.Cache.Serving.{Answered, get-Answered}
use switchyard_llm.Cache.Kept.{get-EntriesOf, set_entry}
use switchyard_llm.Cache.Keys.{ScopeKey, build_scope_key}
use switchyard_llm.Workload.{Base, Random, WorkloadItem, generate_workload}
use switchyard_llm.Workload.Corpus.{intents}
use switchyard_llm.Workload.Labelling.{FitsKnown, Labelled}
use switchyard_llm.Workload.Labels.{generate_workload-Labelled}
use switchyard_llm.Benchmark.{
  Totals, nothing_run, Reading, counted, billed, hit, response, BenchCache, new_cache, answer_of,
  run_on,
}
use switchyard_llm.Benchmark.Items.{Answer, from_cache, from_upstream, run_item_lem}
use switchyard_llm.Benchmark.Counts.{new_cache-IsValid}

abbrev IsKnown : Dict String ℕ → String → Type 0
IsKnown known id = (t : ℕ) × (lookup id known ≡ some t)

IsKnown-insert :
    (known : Dict String ℕ) (base id : String) (t : ℕ)
    → IsKnown known id
    → IsKnown (insert base t known) id
IsKnown-insert known base id t (u, at) =
    let law = lookup-insert base id t known in
    elim (Bool-cases (base == id)) [
      | inl same ↦ (t, ground (arith, law, same))
      | inr other ↦ (u, ground (arith, law, other, at))
    ]

IsKnown-insert_self :
    (known : Dict String ℕ) (base : String) (t : ℕ) → IsKnown (insert base t known) base
IsKnown-insert_self known base t =
    (t, ground (arith, lookup-insert base base t known, string_eq.beq_iff base base))

-- A request whose base is known is labelled to hit.
IsKnown-should_hit :
    (known : Dict String ℕ) (item : WorkloadItem)
    → FitsKnown (lookup item.base_id known) item.should_hit item.completion_tokens
    → IsKnown known item.base_id
    → item.should_hit ≡ true
IsKnown-should_hit known item fits (t, at) =
    (subst (λ o. FitsKnown o item.should_hit item.completion_tokens) at fits).0

-- Between two totals, the correct hits grow by no more than the due ones.
abbrev Recalls : Totals → Totals → Type 0
Recalls t t' = t'.correct_hits + t.should_hit_total ≤ t.correct_hits + t'.should_hit_total

billed-Recalls :
    (item : WorkloadItem) (cost latency : ℕ) (t : Totals)
    → Recalls t (billed cost latency (counted item t))
unfolding billed counted
billed-Recalls item cost latency t = ground arith

hit-Recalls :
    (item : WorkloadItem) (id : String) (latency : ℕ) (t : Totals)
    → ((id == item.base_id) ≡ true → item.should_hit ≡ true)
    → Recalls t (hit item id latency (counted item t))
unfolding hit counted
hit-Recalls item id latency t due = elim (Bool-cases (id == item.base_id)) [
  | inl e ↦ ground (arith, e, due e)
  | inr e ↦ ground (arith, e)
]

module _ (dumps : Json → String) (book : PriceBook) (faiss : Faiss)
    (dumps_scope : ScopeKey → String) where
  -- Every entry of the cache answers with the base of an earlier request.
  abbrev FromKnown : Dict String ℕ → BenchCache faiss → Type 0
  FromKnown known cache =
      (j : ℕ) (e : Entry ChatCompletionResponse)
      → lookup j cache.entries ≡ some e
      → IsKnown known e.response.id

  answered-Recalls :
      (known : Dict String ℕ) (item : WorkloadItem) (vec : faiss.Vector) (reading : Reading)
      (cache : BenchCache faiss) (t : Totals) (state : BenchCache faiss × Totals)
      → IsValid cache
      → FromKnown known cache
      → FitsKnown (lookup item.base_id known) item.should_hit item.completion_tokens
      → Answer dumps book faiss dumps_scope item vec reading cache t state
      → Recalls t state.1
  answered-Recalls known item vec reading cache t state v from fits (from_cache r latency e now) =
      let (valid, results, near, served) =
        subst (Answered reading.get_now (build_scope_key dumps_scope item.request) vec cache) e
          (get-Answered reading.get_now (build_scope_key dumps_scope item.request) vec cache v) in
      let source : IsKnown known r.id =
        subst (λ (x : ChatCompletionResponse). IsKnown known x.id) (sym served.is_it)
          (from served.entry_id served.entry served.present) in
      subst (Recalls t) (sym now) (
        hit-Recalls item r.id latency t (λ same.
          IsKnown-should_hit known item fits
            (subst (IsKnown known) ((string_eq.beq_iff r.id item.base_id).0 same) source)))
  answered-Recalls known item vec reading cache t state v from fits
        (from_upstream cache' latency e kept now) =
      subst (Recalls t) (sym now) (billed-Recalls item _ latency t)

  -- An entry after a lookup is one from before it.
  from_before :
      (known : Dict String ℕ) (now : ℕ) (scope : String) (vec : faiss.Vector)
      (cache cache' : BenchCache faiss) (o : Option ChatCompletionResponse)
      → FromKnown known cache
      → get now scope vec cache ≡ (cache', o)
      → FromKnown known cache'
  from_before known now scope vec cache cache' o from e j x p = from j x (
      get-EntriesOf now scope vec cache j x (
        subst (λ (c : BenchCache faiss). lookup j c.entries ≡ some x)
          (sym (ap (λ (r : BenchCache faiss × Option ChatCompletionResponse). r.0) e)) p))

  answered-FromKnown :
      (known : Dict String ℕ) (item : WorkloadItem) (vec : faiss.Vector) (reading : Reading)
      (cache : BenchCache faiss) (t : Totals) (state : BenchCache faiss × Totals)
      → FromKnown known cache
      → Answer dumps book faiss dumps_scope item vec reading cache t state
      → FromKnown (insert item.base_id item.completion_tokens known) state.0
  unfolding answer_of response
  answered-FromKnown known item vec reading cache t state from (from_cache r latency e now) =
      λ j x p.
        IsKnown-insert known item.base_id x.response.id item.completion_tokens
          (from_before known reading.get_now _ vec cache state.0 _ from e j x p)
  answered-FromKnown known item vec reading cache t state from
        (from_upstream cache' latency e kept now) =
      λ j x p.
        elim (set_entry reading.set_now (build_scope_key dumps_scope item.request) vec
          (answer_of dumps item) cache' state.0 j x kept p) [
            | inl old ↦
                IsKnown-insert known item.base_id x.response.id item.completion_tokens
                  (from_before known reading.get_now _ vec cache cache' _ from e j x old)
            | inr new ↦
                subst
                  (λ (a : ChatCompletionResponse).
                    IsKnown (insert item.base_id item.completion_tokens known) a.id)
                  (sym new) (IsKnown-insert_self known item.base_id item.completion_tokens)
          ]

  run_on-Recalls :
      (clock : ℕ → Reading) (i : ℕ) (items : List WorkloadItem) (prepared : List (faiss.Vector × ℕ))
      (misses : List ℕ) (cache : BenchCache faiss) (t : Totals) (known : Dict String ℕ)
      → length prepared ≡ length items
      → length misses ≡ length items
      → IsValid cache
      → FromKnown known cache
      → Labelled known items
      → (t' : Totals) × (run_on faiss dumps dumps_scope book clock i items prepared misses
            (cache, t)
          ≡ some t')
        × Recalls t t'
  unfolding run_on
  run_on-Recalls clock i [] prepared misses cache t known a b v from labels = (t, refl, omega arith)
  run_on-Recalls clock i (item ∷ items) [] misses cache t known a b v from labels =
      absurd (omega (arith, a))
  run_on-Recalls clock i (item ∷ items) (p ∷ prepared) [] cache t known a b v from labels =
      absurd (omega (arith, b))
  run_on-Recalls clock i (item ∷ items) (p ∷ prepared) (miss ∷ misses) cache t known a b v from
        (fits, labels) =
      let (state, step, v', how) =
        run_item_lem dumps book faiss dumps_scope item p miss (clock i) cache t v in
      let first = answered-Recalls known item p.0 (clock i) cache t state v from fits how in
      let (t', runs, rest) =
        run_on-Recalls clock (suc i) items prepared misses state.0 state.1
          (insert item.base_id item.completion_tokens known) (omega (arith, a)) (omega (arith, b))
          v' (answered-FromKnown known item p.0 (clock i) cache t state from how) labels in
      (t', rw (run_on, step) runs, omega (arith, first, rest))

  -- On a generated workload, the run with the cache returns, and its correct hits are no more than
  -- the hits that the labels ask for, so the recall is at most 1. No two bases are spelled alike, and
  -- there are as many embeddings and upstream latencies as requests.
  pub correct_hits_due :
      (random : Random) (spell : Base → String) (n : ℕ) (d : random.Rate) (seed : ℕ)
      (model : String) (clock : ℕ → Reading) (threshold : faiss.Similarity)
      (prepared : List (faiss.Vector × ℕ)) (misses : List ℕ)
      → ((a b : Base) → spell a ≡ spell b → a ≡ b)
      → length prepared ≡ n
      → length misses ≡ n
      → (items : List WorkloadItem) × (t : Totals) × (generate_workload random spell intents n d
            seed model
          ≡ some items)
        × (run_on faiss dumps dumps_scope book clock 0 items prepared misses
              (new_cache faiss threshold, nothing_run)
            ≡ some t)
        × (t.correct_hits ≤ t.should_hit_total)
  unfolding lookup
  correct_hits_due random spell n d seed model clock threshold prepared misses injective a b =
      let (items, made, size, labels) =
        generate_workload-Labelled random spell n d seed model injective in
      let (t, runs, recalls) =
        run_on-Recalls clock 0 items prepared misses (new_cache faiss threshold) nothing_run []
          (omega (arith, a, size)) (omega (arith, b, size))
          (new_cache-IsValid dumps book faiss dumps_scope threshold) (λ j e p. ground (arith, p))
          labels in
      (items, t, made, runs, omega (arith, recalls))
