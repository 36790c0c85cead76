-- ===== src/Gateway/Plain.antt =====
-- main.py: a request to a gateway without tenants and without a cache.
use switchyard_llm.Prelude.{◌-◌, ℕ, ◌≡◌, refl, sym, subst, false, List, Option, none, some, arith}
use switchyard_llm.Prelude.Int.{pos}
use switchyard_llm.Schemas.{ChatCompletionRequest, ChatCompletionResponse, Target, Usage}
use switchyard_llm.Tenancy.{enabled}
use switchyard_llm.Limiter.{Redis}
use switchyard_llm.Cache.{Faiss}
use switchyard_llm.Executor.{served, World, run}
use switchyard_llm.Routing.{resolve, ordered}
use switchyard_llm.Gateway.{
  completed_reply, AppConfig, Outside, State, Reply, answered, world_of, after, recorded, account,
  write_cache, complete, read_cache, admit, route, chat_completions, Metric, Outcome,
}

module _ {redis : Redis} {faiss : Faiss} {Adapter : Type 0} (g : AppConfig redis faiss Adapter)
    (o : Outside redis faiss Adapter) (request : ChatCompletionRequest) where
  -- The reply, and what the next request finds.
  abbrev pub Served :
      ChatCompletionResponse
      → Target
      → World ChatCompletionResponse
      → Reply × State redis faiss Adapter
      → Type 0
  Served response target v r =
      (r.0 ≡ answered response target) × (r.1.shared ≡ v.shared) × (r.1.cache ≡ none)

  account_kept :
      (target : Target) (usage : Option Usage) (s : State redis faiss Adapter)
      → ((account g o none (pos 0) target usage s).shared ≡ s.shared)
        × ((account g o none (pos 0) target usage s).cache ≡ s.cache)
  unfolding account
  account_kept target none s = (refl, refl)
  account_kept target (some usage) s = (refl, refl)

  completed_reply-Served :
      (started : ℕ) (s : State redis faiss Adapter) (response : ChatCompletionResponse)
      (target : Target) (v : World ChatCompletionResponse)
      → s.cache ≡ none
      → s.shared ≡ v.shared
      → Served response target v
          (completed_reply g o request none (pos 0) started s (served response target))
  unfolding completed_reply write_cache
  completed_reply-Served started s response target v off same =
      let counted =
        recorded g o
          (Metric.request_metric request.model (some target.provider) Outcome.success false)
          (recorded g o
            (Metric.latency_metric target.provider false (o.perf_counter s.tick - started)) s) in
      let (shared, cache) = account_kept target response.usage counted in
      ground (arith, shared, cache, off, same)

  -- A request that no stream is asked for, to an alias that resolves, is answered with what the
  -- executor's run is served with, and leaves the breakers as the run does.
  pub chat_completions-Served :
      (authorization : Option (List ℕ)) (s : State redis faiss Adapter) (targets : List Target)
      (response : ChatCompletionResponse) (target : Target) (v : World ChatCompletionResponse)
      → enabled g.tenants ≡ false
      → request.stream ≡ false
      → s.cache ≡ none
      → resolve
          (record { aliases = g.aliases; signals = s.shared.signals })
          o.uniform
          s.tick
          request.model
        ≡ ordered targets
      → run o.env g.settings targets g.registry request (world_of g o s)
        ≡ (served response target, v)
      → Served response target v (chat_completions g o request authorization s)
  unfolding chat_completions route admit read_cache complete
  chat_completions-Served authorization s targets response target v keyless plain off routed ran =
      let opened : chat_completions g o request authorization s
          ≡ completed_reply g o request none (pos 0) (o.perf_counter s.tick) (after g o v s)
              (served response target) =
        ground (arith, keyless, routed, plain, off, ran) in
      subst (Served response target v) (sym opened)
        (completed_reply-Served (o.perf_counter s.tick) (after g o v s) response target v off refl)
