-- ===== src/Gateway/Passing.antt =====
-- main.py: what the pipeline has checked of a request that it serves.
use switchyard_llm.Prelude.{
  ◌≡◌, true, false, List, Option, some, arith, Option-cases, inl, inr, Bool-cases, ℕ,
}
use switchyard_llm.Schemas.{ChatCompletionRequest, Target}
use switchyard_llm.Tenancy.{
  Tenant, enabled, resolve as find_tenant, extract_bearer, estimate_tokens,
}
use switchyard_llm.Limiter.{Redis, RateLimitResult, check}
use switchyard_llm.Cache.{Faiss}
use switchyard_llm.Routing.{Router, resolve, ordered}
use switchyard_llm.Gateway.{AppConfig, Outside, State, admit, route, chat_completions}
use switchyard_llm.Gateway.Refusals.{is_refusal, is_crash, Outcomes, Resolved-cases}

module _ {redis : Redis} {faiss : Faiss} {Adapter : Type 0} (g : AppConfig redis faiss Adapter)
    (o : Outside redis faiss Adapter) where
  -- What a request has behind it that was let through to the cache and the executor.
  pub record Passed (request : ChatCompletionRequest) (authorization : Option (List ℕ))
      (s : State redis faiss Adapter) : Type 0 where
    pub tenant : Tenant
    pub targets : List Target
    pub result : RateLimitResult
    pub store : redis.Store
    pub known : find_tenant g.tenants (extract_bearer authorization) ≡ some tenant
    pub routed :
        resolve
          (record { aliases = g.aliases; signals = s.shared.signals })
          o.uniform
          s.tick
          request.model
        ≡ ordered targets
    pub checked :
        check redis g.window tenant o.limiter_now (estimate_tokens o.encoder o.str request) s.store
        ≡ some (result, store)
    pub allowed : result.allowed ≡ true

  admit-Passed :
      (request : ChatCompletionRequest) (authorization : Option (List ℕ)) (tenant : Tenant)
      (targets : List Target) (s : State redis faiss Adapter)
      → find_tenant g.tenants (extract_bearer authorization) ≡ some tenant
      → resolve
          (record { aliases = g.aliases; signals = s.shared.signals })
          o.uniform
          s.tick
          request.model
        ≡ ordered targets
      → is_refusal (admit g o request targets (some tenant) s).0 ≡ false
      → is_crash (admit g o request targets (some tenant) s).0 ≡ false
      → Passed request authorization s
  unfolding admit
  admit-Passed request authorization tenant targets s known routed e c =
      let est = estimate_tokens o.encoder o.str request in
      elim (Option-cases (check redis g.window tenant o.limiter_now est s.store)) [
        | inl bad ↦ absurd (ground (arith, c, bad))
        | inr ((rl, store), ran) ↦ elim (Bool-cases rl.allowed) [
          | inr refused ↦ absurd (ground (arith, e, ran, refused))
          | inl allowed ↦ record {
            tenant = tenant;
            targets = targets;
            result = rl;
            store = store;
            known = known;
            routed = routed;
            checked = ran;
            allowed = allowed;
          }
        ]
      ]

  -- With tenants configured, a request that the pipeline does not refuse and whose handler does not
  -- raise has the key of a tenant, names an alias that the router resolves, and was admitted by a
  -- check of that tenant's buckets.
  pub served-Passed :
      (request : ChatCompletionRequest) (authorization : Option (List ℕ))
      (s : State redis faiss Adapter)
      → enabled g.tenants ≡ true
      → is_refusal (chat_completions g o request authorization s).0 ≡ false
      → is_crash (chat_completions g o request authorization s).0 ≡ false
      → Passed request authorization s
  unfolding chat_completions route
  served-Passed request authorization s on e c =
      elim (Option-cases (find_tenant g.tenants (extract_bearer authorization))) [
        | inl keyless ↦ absurd (ground (arith, e, on, keyless))
        | inr (tenant, known) ↦
            let router : Router = record { aliases = g.aliases; signals = s.shared.signals } in
            elim (Resolved-cases (resolve router o.uniform s.tick request.model)) [
              | Outcomes.unknown gone ↦ absurd (ground (arith, e, on, known, gone))
              | Outcomes.stuck bad ↦ absurd (ground (arith, c, on, known, bad))
              | Outcomes.found targets routed ↦
                  admit-Passed request authorization tenant targets s known routed
                    (ground (arith, e, on, known, routed)) (ground (arith, c, on, known, routed))
            ]
      ]
