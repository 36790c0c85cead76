-- ===== src/Gateway/Refusals.antt =====
-- main.py: what a refused request leaves, and what a served one has passed.
use switchyard_llm.Prelude.{
  ◌≡◌, refl, Bool, true, false, List, Option, none, some, arith, Option-cases, ◌⊎◌, inl, inr,
  Bool-cases, ℕ,
}
use switchyard_llm.Prelude.Int.{ℤ, pos}
use switchyard_llm.Schemas.{ChatCompletionRequest, ChatCompletionResponse, Target}
use switchyard_llm.Tenancy.{
  Tenant, enabled, resolve as find_tenant, extract_bearer, estimate_tokens,
}
use switchyard_llm.Limiter.{Redis, check}
use switchyard_llm.Cache.{Faiss, get}
use switchyard_llm.Cache.Keys.{build_query_text}
use switchyard_llm.Executor.{
  Result, served, raised, escaped, all_failed, LastError, upstream_error, circuit_open,
  timeout_error, transport_error, run,
}
use switchyard_llm.Routing.{Router, Resolved, resolve, key_error, unfinished, ordered}
use switchyard_llm.Gateway.{
  AppConfig, Outside, State, Metric, CacheStatus, Reply, error_reply, crashed, ErrorKind,
  invalid_api_key, invalid_request_error, rate_limit_exceeded, last_reply, world_of, after,
  recorded, opened_reply, streaming_completion, completed_reply, complete, cache_scope, read_cache,
  dispatch, admit, route, chat_completions, Opened,
}

-- Whether the pipeline has refused a request by itself.
abbrev pub is_refusal_kind : ErrorKind → Bool
is_refusal_kind invalid_api_key = true
is_refusal_kind invalid_request_error = true
is_refusal_kind rate_limit_exceeded = true
is_refusal_kind ErrorKind.all_targets_failed = false
is_refusal_kind ErrorKind.stream_incomplete = false
is_refusal_kind (ErrorKind.upstream status) = false

abbrev pub is_refusal : Reply → Bool
is_refusal (error_reply status kind retry) = is_refusal_kind kind
is_refusal _ = false

abbrev pub is_throttling : Reply → Bool
is_throttling (error_reply status rate_limit_exceeded retry) = true
is_throttling _ = false

abbrev pub is_crash : Reply → Bool
is_crash crashed = true
is_crash _ = false

-- The three ends of `resolve`.
pub data Outcomes (r : Resolved) : Type 0 where
  unknown : r ≡ key_error → Outcomes r
  stuck : r ≡ unfinished → Outcomes r
  found : (targets : List Target) → r ≡ ordered targets → Outcomes r

pub Resolved-cases : (r : Resolved) → Outcomes r
Resolved-cases key_error = unknown refl
Resolved-cases unfinished = stuck refl
Resolved-cases (ordered targets) = found targets refl

module _ {redis : Redis} {faiss : Faiss} {Adapter : Type 0} (g : AppConfig redis faiss Adapter)
    (o : Outside redis faiss Adapter) where
  abbrev Serves : Reply × State redis faiss Adapter → Type 0
  Serves r = is_refusal r.0 ≡ false

  last_reply_serves : (last : Option LastError) → is_refusal (last_reply g o last) ≡ false
  last_reply_serves none = refl
  last_reply_serves (some (upstream_error status body)) = refl
  last_reply_serves (some (circuit_open provider)) = refl
  last_reply_serves (some timeout_error) = refl
  last_reply_serves (some transport_error) = refl

  opened_reply-Serves :
      (request : ChatCompletionRequest) (tenant : Option Tenant) (est : ℤ) (started : ℕ)
      (s : State redis faiss Adapter) (result : Result Opened)
      → Serves (opened_reply g o request tenant est started s result)
  unfolding opened_reply
  opened_reply-Serves request tenant est started s (served opened target) = refl
  opened_reply-Serves request tenant est started s (raised status body) = refl
  opened_reply-Serves request tenant est started s escaped = refl
  opened_reply-Serves request tenant est started s (all_failed last) = last_reply_serves last

  completed_reply-Serves :
      (request : ChatCompletionRequest) (tenant : Option Tenant) (est : ℤ) (started : ℕ)
      (s : State redis faiss Adapter) (result : Result ChatCompletionResponse)
      → Serves (completed_reply g o request tenant est started s result)
  unfolding completed_reply
  completed_reply-Serves request tenant est started s (served response target) = ground arith
  completed_reply-Serves request tenant est started s (raised status body) = refl
  completed_reply-Serves request tenant est started s escaped = refl
  completed_reply-Serves request tenant est started s (all_failed last) = last_reply_serves last

  complete-Serves :
      (request : ChatCompletionRequest) (targets : List Target) (tenant : Option Tenant) (est : ℤ)
      (s : State redis faiss Adapter)
      → Serves (complete g o request targets tenant est s)
  unfolding complete
  complete-Serves request targets tenant est s =
      let r = run o.env g.settings targets g.registry request (world_of g o s) in
      completed_reply-Serves request tenant est (o.perf_counter s.tick) (after g o r.1 s) r.0

  streaming_completion-Serves :
      (request : ChatCompletionRequest) (targets : List Target) (tenant : Option Tenant) (est : ℤ)
      (s : State redis faiss Adapter)
      → Serves (streaming_completion g o request targets tenant est s)
  unfolding streaming_completion
  streaming_completion-Serves request targets tenant est s =
      let r = run o.stream_env g.settings targets g.registry request (world_of g o s) in
      opened_reply-Serves request tenant est (o.perf_counter s.tick)
        (after g o r.1 (recorded g o (Metric.cache_metric CacheStatus.bypass) s)) r.0

  read_cache-Serves :
      (request : ChatCompletionRequest) (targets : List Target) (tenant : Option Tenant) (est : ℤ)
      (s : State redis faiss Adapter)
      → Serves (read_cache g o request targets tenant est s)
  unfolding read_cache
  read_cache-Serves request targets tenant est s = elim (Option-cases s.cache) [
    | inl off ↦ ground (arith, off, complete-Serves request targets tenant est s)
    | inr (cache, on) ↦
        let found =
          get o.cache_now (cache_scope g o request tenant)
            (o.embed (build_query_text o.dumps request)) cache in
        let missed =
          recorded g o (Metric.cache_metric CacheStatus.miss) (record s { cache = some found.0 }) in
        elim (Option-cases found.1) [
          | inl miss ↦ ground (arith, on, miss, complete-Serves request targets tenant est missed)
          | inr (response, hit) ↦ ground (arith, on, hit)
        ]
  ]

  dispatch-Serves :
      (request : ChatCompletionRequest) (targets : List Target) (tenant : Option Tenant) (est : ℤ)
      (s : State redis faiss Adapter)
      → Serves (dispatch g o request targets tenant est s)
  dispatch-Serves request targets tenant est s = ground (
    arith,
    streaming_completion-Serves request targets tenant est s,
    read_cache-Serves request targets tenant est s,
  )

  -- A refusal has not reached the cache or the executor, and has charged nothing unless it comes
  -- from the admission check.
  pub record Refused (s : State redis faiss Adapter) (r : Reply × State redis faiss Adapter)
      : Type 0 where
    pub cache : r.1.cache ≡ s.cache
    pub shared : r.1.shared ≡ s.shared
    pub tick : r.1.tick ≡ s.tick
    pub store : (r.1.store ≡ s.store) ⊎ (is_throttling r.0 ≡ true)

  admit-Refused :
      (request : ChatCompletionRequest) (targets : List Target) (tenant : Option Tenant)
      (s : State redis faiss Adapter)
      → is_refusal (admit g o request targets tenant s).0 ≡ true
      → Refused s (admit g o request targets tenant s)
  unfolding admit
  admit-Refused request targets none s e =
      absurd (ground (arith, e, dispatch-Serves request targets none (pos 0) s))
  admit-Refused request targets (some tenant) s e =
      let est = estimate_tokens o.encoder o.str request in
      elim (Option-cases (check redis g.window tenant o.limiter_now est s.store)) [
        | inl bad ↦ absurd (ground (arith, e, bad))
        | inr ((rl, store), ran) ↦ elim (Bool-cases rl.allowed) [
          | inl allowed ↦ absurd (
              ground (
                arith,
                e,
                ran,
                allowed,
                dispatch-Serves request targets (some tenant) est (record s { store = store }),
              ))
          | inr refused ↦ record {
            cache = ground (arith, ran, refused);
            shared = ground (arith, ran, refused);
            tick = ground (arith, ran, refused);
            store = inr (ground (arith, ran, refused));
          }
        ]
      ]

  route-Refused :
      (request : ChatCompletionRequest) (tenant : Option Tenant) (s : State redis faiss Adapter)
      → is_refusal (route g o request tenant s).0 ≡ true
      → Refused s (route g o request tenant s)
  unfolding route
  route-Refused request tenant s e =
      let router : Router = record { aliases = g.aliases; signals = s.shared.signals } in
      elim (Resolved-cases (resolve router o.uniform s.tick request.model)) [
        | Outcomes.unknown gone ↦
            rw (gone, route) (record { cache = refl; shared = refl; tick = refl; store = inl refl })
        | Outcomes.stuck bad ↦ absurd (ground (arith, e, bad))
        | Outcomes.found targets routed ↦
            rw (routed, route) (admit-Refused request targets tenant s (rw (routed, route) at e))
      ]

  -- A request that the pipeline refuses, with 401, 400 or 429, has not touched the cache, the
  -- breakers, the signals or an adapter, and unless it is a 429, the Redis store neither.
  pub chat_completions-Refused :
      (request : ChatCompletionRequest) (authorization : Option (List ℕ))
      (s : State redis faiss Adapter)
      → is_refusal (chat_completions g o request authorization s).0 ≡ true
      → Refused s (chat_completions g o request authorization s)
  unfolding chat_completions
  chat_completions-Refused request authorization s e = elim (Bool-cases (enabled g.tenants)) [
    | inr off ↦
        rw (off, chat_completions) (route-Refused request none s (rw (off, chat_completions) at e))
    | inl on ↦ elim (Option-cases (find_tenant g.tenants (extract_bearer authorization))) [
      | inl keyless ↦
          rw (on, keyless, chat_completions)
            (record { cache = refl; shared = refl; tick = refl; store = inl refl })
      | inr (tenant, known) ↦
          rw (on, known, chat_completions)
            (route-Refused request (some tenant) s (rw (on, known, chat_completions) at e))
    ]
  ]
