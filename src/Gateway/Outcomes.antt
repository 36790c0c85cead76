-- ===== src/Gateway/Outcomes.antt =====
-- gateway/main.py: what a request does with the executor's result, its refund, its charge, its
-- metrics and its cache write.
use switchyard_llm.Prelude.{
  ◌-◌, ℕ, String, string_eq, true, false, [], ◌∷◌, ◌++◌, Option, none, some, if◌then◌else◌,
}
use switchyard_llm.Prelude.Int.{ℤ, pos}
use switchyard_llm.Schemas.{ChatCompletionRequest, ChatCompletionResponse, Target, Usage}
use switchyard_llm.Tenancy.{Tenant}
use switchyard_llm.Limiter.{Redis, reconcile}
use switchyard_llm.Cache.{Faiss, set}
use switchyard_llm.Cache.Keys.{build_scope_key, build_query_text, tenant_scope}
use switchyard_llm.Executor.{Result, served, raised, escaped, all_failed, LastError, upstream_error}
use switchyard_llm.Signals.{cost_usd}
use switchyard_llm.Gateway.Model.{
  Opened, Metric, ErrorKind, all_targets_failed, upstream, success, error, error_metric,
  request_metric, latency_metric, usage_metric, Reply, error_reply, forwarded, answered, streaming,
  crashed, AppConfig, State, Outside,
}

abbrev pub tenant_id : Option Tenant → Option String
tenant_id none = none
tenant_id (some t) = some t.id

module _ {redis : Redis} {faiss : Faiss} {Adapter : Type 0} (g : AppConfig redis faiss Adapter)
    (o : Outside redis faiss Adapter) where
  abbrev pub recorded : Metric → State redis faiss Adapter → State redis faiss Adapter
  recorded m s = record s { metrics = s.metrics ++ m ∷ [] }

  -- `_refund_tokens`
  unfoldable pub refund_tokens :
      Option Tenant → ℤ → State redis faiss Adapter → State redis faiss Adapter
  refund_tokens none estimated s = s
  refund_tokens (some tenant) estimated s = record s {
    store = reconcile redis g.window tenant (pos 0) estimated s.store;
  }

  -- `_cache_scope`
  unfoldable pub cache_scope : ChatCompletionRequest → Option Tenant → String
  cache_scope request none = build_scope_key o.dumps_scope request
  cache_scope request (some tenant) =
      if g.cache_per_tenant
      then tenant_scope tenant.id (build_scope_key o.dumps_scope request)
      else build_scope_key o.dumps_scope request

  abbrev pub last_reply : Option LastError → Reply
  last_reply (some (upstream_error status body)) = forwarded status body
  last_reply _ = error_reply 502 all_targets_failed none

  -- The `except` branches after the executor: none of them for a result or another exception.
  unfoldable pub failed :
      ChatCompletionRequest
      → Option Tenant
      → ℤ
      → ErrorKind
      → Reply
      → State redis faiss Adapter
      → Reply × State redis faiss Adapter
  unfolding refund_tokens
  failed request tenant estimated kind reply s = (
    reply,
    recorded (request_metric request.model none error request.stream)
        (recorded (error_metric kind) (refund_tokens tenant estimated s)),
  )

  -- `_streaming_completion` after the executor's call, up to its return; `started` was read
  -- before the call.
  unfoldable pub opened_reply :
      ChatCompletionRequest
      → Option Tenant
      → ℤ
      → ℕ
      → State redis faiss Adapter
      → Result Opened
      → Reply × State redis faiss Adapter
  unfolding failed
  opened_reply request tenant estimated started s (served opened target) = (
    streaming opened target,
    recorded (request_metric request.model (some target.provider) success true)
        (recorded (latency_metric target.provider true (o.perf_counter s.tick - started)) s),
  )
  opened_reply request tenant estimated started s (raised status body) =
      failed request tenant estimated (upstream status) (forwarded status body) s
  opened_reply request tenant estimated started s escaped = (crashed, s)
  opened_reply request tenant estimated started s (all_failed last) =
      failed request tenant estimated all_targets_failed (last_reply last) s

  -- The reconciliation and the usage metric of a response.
  unfoldable pub account :
      Option Tenant
      → ℤ
      → Target
      → Option Usage
      → State redis faiss Adapter
      → State redis faiss Adapter
  account tenant estimated target none s = s
  account tenant estimated target (some usage) s =
      let charged : State redis faiss Adapter = elim tenant [
        | none ↦ s
        | some t ↦ record s {
          store = reconcile redis g.window t (pos usage.total_tokens) estimated s.store;
        }
      ] in
      recorded
        (usage_metric (tenant_id tenant) target.provider usage.prompt_tokens usage.completion_tokens
          (cost_usd g.pricebook target.model usage.prompt_tokens usage.completion_tokens))
        charged

  -- The cache write, with the vector of the read.
  unfoldable pub write_cache :
      ChatCompletionRequest
      → Option Tenant
      → ChatCompletionResponse
      → State redis faiss Adapter
      → Option (State redis faiss Adapter)
  unfolding cache_scope
  write_cache request tenant response s = elim s.cache [
    | none ↦ some s
    | some cache ↦
        elim (set o.written_now (cache_scope request tenant)
          (o.embed (build_query_text o.dumps request)) response cache) [
            | none ↦ none
            | some c ↦ some (record s { cache = some c })
          ]
  ]

  -- The end of `chat_completions`, after the executor's call.
  unfoldable pub completed_reply :
      ChatCompletionRequest
      → Option Tenant
      → ℤ
      → ℕ
      → State redis faiss Adapter
      → Result ChatCompletionResponse
      → Reply × State redis faiss Adapter
  unfolding failed account write_cache
  completed_reply request tenant estimated started s (served response target) =
      let counted = account tenant estimated target response.usage (
        recorded (request_metric request.model (some target.provider) success false)
          (recorded (latency_metric target.provider false (o.perf_counter s.tick - started)) s)) in
      elim (write_cache request tenant response counted) [
        | none ↦ (crashed, counted)
        | some s' ↦ (answered response target, s')
      ]
  completed_reply request tenant estimated started s (raised status body) =
      failed request tenant estimated (upstream status) (forwarded status body) s
  completed_reply request tenant estimated started s escaped = (crashed, s)
  completed_reply request tenant estimated started s (all_failed last) =
      failed request tenant estimated all_targets_failed (last_reply last) s
