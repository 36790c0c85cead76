-- ===== src/Gateway.antt =====
-- gateway/main.py: the pipeline of a chat completion. What one request leaves is the state: the
-- Redis store, the cache, what the executor shares, and the recorded metrics. `Outside` has what
-- the process does not compute: clocks, upstream calls, draws, the encoder of `tiktoken`, Python's
-- `str`, the embedder, and `json.dumps` for the texts that the cache is asked with. A reply is
-- `crashed` where an exception leaves the handler. What follows the executor is in Outcomes.
-- A stream's frames are delivered after the handler has returned (`Gateway.Delivery`).
pub mod Model
pub mod Outcomes
pub mod Delivery
pub mod Calls
pub mod Charge
pub mod Counters
pub mod Accounting
pub mod Streams
pub mod Refusals
pub mod Passing
pub mod Answered
pub mod Plain
pub mod Isolation
pub mod Attempts
pub mod Requests
pub use Model.*
unfoldable pub use Outcomes.*
use switchyard_llm.Prelude.{
  ℕ, ◌+◌, ◌-◌, ◌*◌, ◌/◌, String, string_eq, false, List, [], Option, none, some, Dict, max,
  if◌then◌else◌,
}
use switchyard_llm.Prelude.Int.{ℤ, pos}
use switchyard_llm.Schemas.{ChatCompletionRequest, ChatCompletionResponse, Target}
use switchyard_llm.Tenancy.{
  Tenant, enabled, resolve as find_tenant, extract_bearer, estimate_tokens,
}
use switchyard_llm.Limiter.{Redis, check}
use switchyard_llm.Cache.{Faiss, get}
use switchyard_llm.Cache.Keys.{build_query_text}
use switchyard_llm.Executor.{Result, Env, Settings, World, run}
use switchyard_llm.Routing.{Router, resolve, key_error, unfinished, ordered}
use switchyard_llm.Signals.{Fraction}

-- `execute`: the loop over `adapter.chat_completion`.
abbrev pub execute :
    {Adapter : Type 0}
    → Env Adapter ChatCompletionResponse
    → Settings
    → List Target
    → Dict String Adapter
    → ChatCompletionRequest
    → World ChatCompletionResponse
    → Result ChatCompletionResponse × World ChatCompletionResponse
execute env settings targets registry request w = run env settings targets registry request w

-- `execute_stream`: the same loop over the first `__anext__` of `adapter.stream_chat_completion`, of
-- which StopAsyncIteration is the value without a first chunk.
abbrev pub execute_stream :
    {Adapter : Type 0}
    → Env Adapter Opened
    → Settings
    → List Target
    → Dict String Adapter
    → ChatCompletionRequest
    → World Opened
    → Result Opened × World Opened
execute_stream env settings targets registry request w = run env settings targets registry request w

-- `max(1, math.ceil(rl.retry_after_s))`, of ticks.
unfoldable pub retry_after_header : ℕ → Fraction → ℕ
retry_after_header second f = let d = f.den * second in max 1 ((f.num + (d - 1)) / d)

module _ {redis : Redis} {faiss : Faiss} {Adapter : Type 0} (g : AppConfig redis faiss Adapter)
    (o : Outside redis faiss Adapter) where
  abbrev pub world_of {ℓ} : {A : Type ℓ} → State redis faiss Adapter → World A
  world_of s = record { tick = s.tick; shared = s.shared; failures = []; calls = []; slept = [] }

  abbrev pub after {ℓ} :
      {A : Type ℓ} → World A → State redis faiss Adapter → State redis faiss Adapter
  after w s = record s { tick = w.tick; shared = w.shared }

  -- `_streaming_completion`, up to its return.
  unfoldable pub streaming_completion :
      ChatCompletionRequest
      → List Target
      → Option Tenant
      → ℤ
      → State redis faiss Adapter
      → Reply × State redis faiss Adapter
  unfolding opened_reply
  streaming_completion request targets tenant estimated s =
      let (result, w) =
        execute_stream o.stream_env g.settings targets g.registry request (world_of s) in
      opened_reply g o request tenant estimated (o.perf_counter s.tick)
        (after w (recorded g o (cache_metric bypass) s)) result

  -- From the executor's call to the end of `chat_completions`.
  unfoldable pub complete :
      ChatCompletionRequest
      → List Target
      → Option Tenant
      → ℤ
      → State redis faiss Adapter
      → Reply × State redis faiss Adapter
  unfolding completed_reply
  complete request targets tenant estimated s =
      let (result, w) = execute o.env g.settings targets g.registry request (world_of s) in
      completed_reply g o request tenant estimated (o.perf_counter s.tick) (after w s) result

  -- The cache read, and what follows it.
  unfoldable pub read_cache :
      ChatCompletionRequest
      → List Target
      → Option Tenant
      → ℤ
      → State redis faiss Adapter
      → Reply × State redis faiss Adapter
  unfolding complete refund_tokens cache_scope
  read_cache request targets tenant estimated s = elim s.cache [
    | none ↦ complete request targets tenant estimated s
    | some cache ↦
        let (c, found) =
          get o.cache_now (cache_scope g o request tenant)
            (o.embed (build_query_text o.dumps request)) cache in
        let s' = record s { cache = some c } in
        elim found [
          | some response ↦ (
            from_cache response,
            recorded g o (request_metric request.model none success false)
                (recorded g o (cache_metric hit) (refund_tokens g o tenant estimated s')),
          )
          | none ↦ complete request targets tenant estimated (recorded g o (cache_metric miss) s')
        ]
  ]

  abbrev pub dispatch :
      ChatCompletionRequest
      → List Target
      → Option Tenant
      → ℤ
      → State redis faiss Adapter
      → Reply × State redis faiss Adapter
  dispatch request targets tenant estimated s =
      if request.stream
      then streaming_completion request targets tenant estimated s
      else read_cache request targets tenant estimated s

  -- The rate-limit admission, and what follows it.
  unfoldable pub admit :
      ChatCompletionRequest
      → List Target
      → Option Tenant
      → State redis faiss Adapter
      → Reply × State redis faiss Adapter
  unfolding streaming_completion read_cache
  admit request targets none s = dispatch request targets none (pos 0) s
  admit request targets (some tenant) s =
      let estimated = estimate_tokens o.encoder o.str request in
      elim (check redis g.window tenant o.limiter_now estimated s.store) [
        | none ↦ (crashed, s)
        | some (rl, store) ↦
            let s' = record s { store = store } in
            if rl.allowed then dispatch request targets (some tenant) estimated s' else (
              error_reply 429 rate_limit_exceeded
                  (some (retry_after_header g.second rl.retry_after)),
              recorded g o (request_metric request.model none throttled request.stream)
                  (recorded g o (error_metric rate_limit_exceeded) s'),
            )
      ]

  -- The alias's targets, and what follows.
  unfoldable pub route :
      ChatCompletionRequest
      → Option Tenant
      → State redis faiss Adapter
      → Reply × State redis faiss Adapter
  unfolding admit
  route request tenant s =
      let router : Router = record { aliases = g.aliases; signals = s.shared.signals } in
      elim (resolve router o.uniform s.tick request.model) [
        | key_error ↦ (
          error_reply 400 invalid_request_error none,
          recorded g o (error_metric invalid_request_error) s,
        )
        | unfinished ↦ (crashed, s)
        | ordered targets ↦ admit request targets tenant s
      ]

  unfoldable pub chat_completions :
      ChatCompletionRequest
      → Option (List ℕ)
      → State redis faiss Adapter
      → Reply × State redis faiss Adapter
  unfolding route
  chat_completions request authorization s =
      if enabled g.tenants
      then elim (find_tenant g.tenants (extract_bearer authorization)) [
        | none ↦
            (error_reply 401 invalid_api_key none, recorded g o (error_metric invalid_api_key) s)
        | some tenant ↦ route request (some tenant) s
      ]
      else route request none s
