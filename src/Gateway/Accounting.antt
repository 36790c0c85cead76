-- ===== src/Gateway/Accounting.antt =====
-- main.py: what an admitted request is charged, by its reply.
use switchyard_llm.Prelude.{
  ℕ, ◌*◌, ◌≡◌, refl, sym, subst, true, false, List, Option, none, some, arith, Option-cases, inl,
  inr, Bool-cases, string_eq,
}
use switchyard_llm.Prelude.Int.{ℤ, pos, ◌-ℤ◌, scale}
use switchyard_llm.Schemas.{ChatCompletionRequest, Target}
use switchyard_llm.Tenancy.{
  Tenant, enabled, resolve as find_tenant, extract_bearer, estimate_tokens,
}
use switchyard_llm.Limiter.{Redis, RateLimitResult, check, reconcile, level, request_key, token_key}
use switchyard_llm.Limiter.Script.{Holds}
use switchyard_llm.Limiter.Refund.{check_then_reconcile}
use switchyard_llm.Cache.{Faiss, get}
use switchyard_llm.Cache.Keys.{build_query_text}
use switchyard_llm.Executor.{run}
use switchyard_llm.Routing.{resolve, ordered}
use switchyard_llm.Gateway.{
  AppConfig, Metric, Outcome, CacheStatus, Outside, State, from_cache, refund_tokens, cache_scope,
  world_of, after, recorded, complete, read_cache, streaming_completion, dispatch, admit, route,
  chat_completions,
}
use switchyard_llm.Gateway.Charge.{actual, Billed, opened_reply-Billed, completed_reply-Billed}

module _ {redis : Redis} {faiss : Faiss} {Adapter : Type 0} (g : AppConfig redis faiss Adapter)
    (o : Outside redis faiss Adapter) where
  complete-Billed :
      (request : ChatCompletionRequest) (targets : List Target) (tenant : Tenant) (est : ℤ)
      (s : State redis faiss Adapter)
      → Billed g o tenant est s (complete g o request targets (some tenant) est s)
  unfolding complete
  complete-Billed request targets tenant est s =
      let r = run o.env g.settings targets g.registry request (world_of g o s) in
      completed_reply-Billed g o request tenant est (o.perf_counter s.tick) (after g o r.1 s) r.0

  read_cache-Billed :
      (request : ChatCompletionRequest) (targets : List Target) (tenant : Tenant) (est : ℤ)
      (s : State redis faiss Adapter)
      → Billed g o tenant est s (read_cache g o request targets (some tenant) est s)
  unfolding read_cache refund_tokens
  read_cache-Billed request targets tenant est s = elim (Option-cases s.cache) [
    | inl off ↦
        let opened : read_cache g o request targets (some tenant) est s
            ≡ complete g o request targets (some tenant) est s =
          ground (arith, off) in
        subst (Billed g o tenant est s) (sym opened) (complete-Billed request targets tenant est s)
    | inr (cache, on) ↦
        let found =
          get o.cache_now (cache_scope g o request (some tenant))
            (o.embed (build_query_text o.dumps request)) cache in
        let s' = record s { cache = some found.0 } in
        elim (Option-cases found.1) [
          | inl missed ↦
              let opened : read_cache g o request targets (some tenant) est s
                  ≡ complete g o request targets (some tenant) est
                      (recorded g o (Metric.cache_metric CacheStatus.miss) s') =
                ground (arith, on, missed) in
              subst (Billed g o tenant est s) (sym opened)
                (complete-Billed request targets tenant est _)
          | inr (response, hit) ↦
              let opened : read_cache g o request targets (some tenant) est s ≡ (
                from_cache response,
                recorded g o (Metric.request_metric request.model none Outcome.success false) (
                    recorded g o (Metric.cache_metric CacheStatus.hit)
                      (refund_tokens g o (some tenant) est s')),
              ) =
                ground (arith, on, hit) in
              subst (Billed g o tenant est s) (sym opened)
                (λ a e. let free : pos 0 ≡ a = ground (arith, e) in rw (← free) refl)
        ]
  ]

  streaming-Billed :
      (request : ChatCompletionRequest) (targets : List Target) (tenant : Tenant) (est : ℤ)
      (s : State redis faiss Adapter)
      → Billed g o tenant est s (streaming_completion g o request targets (some tenant) est s)
  unfolding streaming_completion
  streaming-Billed request targets tenant est s =
      let r = run o.stream_env g.settings targets g.registry request (world_of g o s) in
      opened_reply-Billed g o request tenant est (o.perf_counter s.tick)
        (after g o r.1 (recorded g o (Metric.cache_metric CacheStatus.bypass) s)) r.0

  dispatch-Billed :
      (request : ChatCompletionRequest) (targets : List Target) (tenant : Tenant) (est : ℤ)
      (s : State redis faiss Adapter)
      → Billed g o tenant est s (dispatch g o request targets (some tenant) est s)
  dispatch-Billed request targets tenant est s = elim (Bool-cases request.stream) [
    | inl streams ↦
        let opened : dispatch g o request targets (some tenant) est s
            ≡ streaming_completion g o request targets (some tenant) est s =
          ground (arith, streams) in
        subst (Billed g o tenant est s) (sym opened) (streaming-Billed request targets tenant est s)
    | inr whole ↦
        let opened : dispatch g o request targets (some tenant) est s
            ≡ read_cache g o request targets (some tenant) est s =
          ground (arith, whole) in
        subst (Billed g o tenant est s) (sym opened)
          (read_cache-Billed request targets tenant est s)
  ]

  -- The Redis store after an admitted request.
  pub request_store :
      (request : ChatCompletionRequest) (authorization : Option (List ℕ)) (tenant : Tenant)
      (targets : List Target) (s : State redis faiss Adapter) (a : ℤ) (rl : RateLimitResult)
      (admitted : redis.Store)
      → enabled g.tenants ≡ true
      → find_tenant g.tenants (extract_bearer authorization) ≡ some tenant
      → resolve
          (record { aliases = g.aliases; signals = s.shared.signals })
          o.uniform
          s.tick
          request.model
        ≡ ordered targets
      → check redis g.window tenant o.limiter_now (estimate_tokens o.encoder o.str request) s.store
        ≡ some (rl, admitted)
      → rl.allowed ≡ true
      → actual
          (estimate_tokens o.encoder o.str request)
          (chat_completions g o request authorization s).0
        ≡ some a
      → (chat_completions g o request authorization s).1.store
        ≡ reconcile redis g.window tenant a (estimate_tokens o.encoder o.str request) admitted
  unfolding chat_completions route admit
  request_store request authorization tenant targets s a rl admitted on known routed ran allowed e =
      let est = estimate_tokens o.encoder o.str request in
      let opened : chat_completions g o request authorization s
          ≡ dispatch g o request targets (some tenant) est (record s { store = admitted }) =
        ground (arith, on, known, routed, ran, allowed) in
      let store =
        dispatch-Billed request targets tenant est (record s { store = admitted }) a
          (rw opened at e) in
      rw (opened, store) refl

  -- A request with a tenant's key, for an alias that resolves, whose check admits it with the levels
  -- `rtok` and `ttok` in the buckets: whatever the reply, unless the handler raises, one request is
  -- charged, and of tokens exactly what the reply stands for. Cached responses and errors refund the
  -- whole estimate, an upstream answer is charged its reported usage (the estimate if there is
  -- none), and a stream keeps the estimate until it ends.
  pub request_bill :
      (request : ChatCompletionRequest) (authorization : Option (List ℕ)) (tenant : Tenant)
      (targets : List Target) (s : State redis faiss Adapter) (rtok ttok a : ℤ)
      (rl : RateLimitResult) (admitted : redis.Store)
      → enabled g.tenants ≡ true
      → find_tenant g.tenants (extract_bearer authorization) ≡ some tenant
      → resolve
          (record { aliases = g.aliases; signals = s.shared.signals })
          o.uniform
          s.tick
          request.model
        ≡ ordered targets
      → level redis
          (request_key redis g.window tenant)
          o.limiter_now
          (tenant.requests_per_min * g.window)
          tenant.requests_per_min
          s.store
        ≡ some rtok
      → level redis
          (token_key redis g.window tenant)
          o.limiter_now
          (tenant.tokens_per_min * g.window)
          tenant.tokens_per_min
          s.store
        ≡ some ttok
      → check redis g.window tenant o.limiter_now (estimate_tokens o.encoder o.str request) s.store
        ≡ some (rl, admitted)
      → rl.allowed ≡ true
      → actual
          (estimate_tokens o.encoder o.str request)
          (chat_completions g o request authorization s).0
        ≡ some a
      → let v = (chat_completions g o request authorization s).1.store in
        Holds redis (token_key redis g.window tenant) (ttok -ℤ scale g.window a) o.limiter_now v
        × Holds redis (request_key redis g.window tenant) (rtok -ℤ pos g.window) o.limiter_now v
  request_bill request authorization tenant targets s rtok ttok a rl admitted on known routed er et
        ran allowed e =
      let est = estimate_tokens o.encoder o.str request in
      let store =
        request_store request authorization tenant targets s a rl admitted on known routed ran
          allowed e in
      rw store (
        check_then_reconcile redis g.window tenant o.limiter_now est a rtok ttok s.store admitted rl
          er et ran allowed)
