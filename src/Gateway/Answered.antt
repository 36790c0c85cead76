-- ===== src/Gateway/Answered.antt =====
-- main.py: where an upstream answer of the pipeline comes from.
use switchyard_llm.Prelude.{
  ℕ, ◌≡◌, refl, List, Option, none, some, arith, Option-cases, Bool-cases, inl, inr,
}
use switchyard_llm.Prelude.Int.{ℤ, pos}
use switchyard_llm.Schemas.{ChatCompletionRequest, ChatCompletionResponse, Target}
use switchyard_llm.Tenancy.{
  Tenant, enabled, resolve as find_tenant, extract_bearer, estimate_tokens,
}
use switchyard_llm.Limiter.{Redis, check}
use switchyard_llm.Cache.{Faiss, get}
use switchyard_llm.Cache.Keys.{build_query_text}
use switchyard_llm.Executor.{
  Result, served, raised, escaped, all_failed, LastError, upstream_error, circuit_open,
  timeout_error, transport_error, World, run,
}
use switchyard_llm.Routing.{Router, resolve, ordered}
use switchyard_llm.Gateway.{
  opened_reply, completed_reply, AppConfig, Outside, State, Reply, answered, cache_scope,
  last_reply, failed, world_of, recorded, complete, read_cache, Opened, streaming_completion,
  dispatch, admit, route, chat_completions, CacheStatus, Metric,
}
use switchyard_llm.Gateway.Refusals.{Outcomes, Resolved-cases}

-- The upstream answer of a reply, if it has one.
abbrev pub answer_of : Reply → Option (ChatCompletionResponse × Target)
answer_of (answered response target) = some (response, target)
answer_of reply = none

module _ {redis : Redis} {faiss : Faiss} {Adapter : Type 0} (g : AppConfig redis faiss Adapter)
    (o : Outside redis faiss Adapter) (request : ChatCompletionRequest)
    (response : ChatCompletionResponse) (target : Target) where
  last_reply_answer : (last : Option LastError) → answer_of (last_reply g o last) ≡ none
  last_reply_answer none = refl
  last_reply_answer (some (upstream_error status body)) = refl
  last_reply_answer (some (circuit_open provider)) = refl
  last_reply_answer (some timeout_error) = refl
  last_reply_answer (some transport_error) = refl

  opened_reply_answer :
      (tenant : Option Tenant) (est : ℤ) (started : ℕ) (s : State redis faiss Adapter)
      (result : Result Opened)
      → answer_of (opened_reply g o request tenant est started s result).0 ≡ none
  unfolding opened_reply failed
  opened_reply_answer tenant est started s (served opened t) = refl
  opened_reply_answer tenant est started s (raised status body) = refl
  opened_reply_answer tenant est started s escaped = refl
  opened_reply_answer tenant est started s (all_failed last) = last_reply_answer last

  completed_reply-served :
      (tenant : Option Tenant) (est : ℤ) (started : ℕ) (s : State redis faiss Adapter)
      (result : Result ChatCompletionResponse)
      → answer_of (completed_reply g o request tenant est started s result).0
        ≡ some (response, target)
      → result ≡ served response target
  unfolding completed_reply failed
  completed_reply-served tenant est started s (served r t) e = ground (arith, e)
  completed_reply-served tenant est started s (raised status body) e = absurd (ground (arith, e))
  completed_reply-served tenant est started s escaped e = absurd (ground (arith, e))
  completed_reply-served tenant est started s (all_failed last) e =
      absurd (ground (arith, e, last_reply_answer last))

  -- A run over these targets is served with the answer.
  abbrev pub Serves : List Target → Type 0
  Serves targets =
      (w : World ChatCompletionResponse) × ((run o.env g.settings targets g.registry request w).0
        ≡ served response target)

  complete-Serves :
      (targets : List Target) (tenant : Option Tenant) (est : ℤ) (s : State redis faiss Adapter)
      → answer_of (complete g o request targets tenant est s).0 ≡ some (response, target)
      → Serves targets
  unfolding complete
  complete-Serves targets tenant est s e =
      (world_of g o s, completed_reply-served tenant est (o.perf_counter s.tick) _ _ e)

  read_cache-Serves :
      (targets : List Target) (tenant : Option Tenant) (est : ℤ) (s : State redis faiss Adapter)
      → answer_of (read_cache g o request targets tenant est s).0 ≡ some (response, target)
      → Serves targets
  unfolding read_cache
  read_cache-Serves targets tenant est s e = elim (Option-cases s.cache) [
    | inl off ↦ complete-Serves targets tenant est s (rw (off, read_cache) at e)
    | inr (cache, on) ↦
        let found =
          get o.cache_now (cache_scope g o request tenant)
            (o.embed (build_query_text o.dumps request)) cache in
        elim (Option-cases found.1) [
          | inl missed ↦
              complete-Serves targets tenant est
                (recorded g o (Metric.cache_metric CacheStatus.miss)
                  (record s { cache = some found.0 }))
                (ground (arith, on, missed, e))
          | inr (r, hit) ↦ absurd (ground (arith, on, hit, e))
        ]
  ]

  dispatch-Serves :
      (targets : List Target) (tenant : Option Tenant) (est : ℤ) (s : State redis faiss Adapter)
      → answer_of (dispatch g o request targets tenant est s).0 ≡ some (response, target)
      → Serves targets
  unfolding streaming_completion
  dispatch-Serves targets tenant est s e = elim (Bool-cases request.stream) [
    | inl streams ↦
        absurd
          (ground (arith, streams, e, opened_reply_answer tenant est (o.perf_counter s.tick) _ _))
    | inr whole ↦ read_cache-Serves targets tenant est s (ground (arith, whole, e))
  ]

  admit-Serves :
      (targets : List Target) (tenant : Option Tenant) (s : State redis faiss Adapter)
      → answer_of (admit g o request targets tenant s).0 ≡ some (response, target)
      → Serves targets
  unfolding admit
  admit-Serves targets none s e = dispatch-Serves targets none (pos 0) s e
  admit-Serves targets (some tenant) s e =
      let est = estimate_tokens o.encoder o.str request in
      elim (Option-cases (check redis g.window tenant o.limiter_now est s.store)) [
        | inl bad ↦ absurd (ground (arith, e, bad))
        | inr ((rl, store), ran) ↦ elim (Bool-cases rl.allowed) [
          | inl allowed ↦
              dispatch-Serves targets (some tenant) est (record s { store = store })
                (ground (arith, e, ran, allowed))
          | inr refused ↦ absurd (ground (arith, e, ran, refused))
        ]
      ]

  -- What stands behind an answer: the alias's targets, in the router's order, and a run over them.
  abbrev pub Routed : State redis faiss Adapter → Type 0
  Routed s =
      (targets : List Target) × (resolve
          (record { aliases = g.aliases; signals = s.shared.signals }) o.uniform s.tick
          request.model
        ≡ ordered targets)
      × Serves targets

  route-Routed :
      (tenant : Option Tenant) (s : State redis faiss Adapter)
      → answer_of (route g o request tenant s).0 ≡ some (response, target)
      → Routed s
  unfolding route
  route-Routed tenant s e =
      let router : Router = record { aliases = g.aliases; signals = s.shared.signals } in
      elim (Resolved-cases (resolve router o.uniform s.tick request.model)) [
        | Outcomes.unknown gone ↦ absurd (ground (arith, e, gone))
        | Outcomes.stuck bad ↦ absurd (ground (arith, e, bad))
        | Outcomes.found targets routed ↦
            (targets, routed, admit-Serves targets tenant s (ground (arith, e, routed)))
      ]

  -- An upstream answer of the pipeline is what a run of the executor over the alias's targets was
  -- served with.
  pub chat_completions-Routed :
      (authorization : Option (List ℕ)) (s : State redis faiss Adapter)
      → answer_of (chat_completions g o request authorization s).0 ≡ some (response, target)
      → Routed s
  unfolding chat_completions
  chat_completions-Routed authorization s e = elim (Bool-cases (enabled g.tenants)) [
    | inl on ↦ elim (Option-cases (find_tenant g.tenants (extract_bearer authorization))) [
      | inl keyless ↦ absurd (ground (arith, e, on, keyless))
      | inr (tenant, known) ↦ route-Routed (some tenant) s (ground (arith, e, on, known))
    ]
    | inr off ↦ route-Routed none s (ground (arith, e, off))
  ]
