-- ===== src/Gateway/Model.antt =====
-- main.py: the configuration, the state, the replies and the recorded metrics of the pipeline.
use switchyard_llm.Prelude.{ℕ, String, string_eq, Bool, List, Option, Dict}
use switchyard_llm.Prelude.Int.{ℤ}
use switchyard_llm.Schemas.{Json, ChatCompletionResponse, Target}
use switchyard_llm.Tenancy.{TenantRegistry}
use switchyard_llm.Limiter.{Redis}
use switchyard_llm.Cache.{Faiss, SemanticCache}
use switchyard_llm.Cache.Keys.{ScopeKey}
use switchyard_llm.Executor.{Env, Settings, Shared}
use switchyard_llm.Routing.{Policy}
use switchyard_llm.Signals.{PriceBook}
use switchyard_llm.Streaming.{Chunk, Ending}

-- The opened stream of `execute_stream`: the first chunk, the other chunks and how they end.
abbrev pub Opened : Type 0
Opened = Option Chunk × List Chunk × Ending

pub data ErrorKind : Type 0 where
  invalid_api_key invalid_request_error rate_limit_exceeded all_targets_failed : ErrorKind
  stream_incomplete : ErrorKind
  upstream : ℕ → ErrorKind

pub data Outcome : Type 0 where
  success throttled error : Outcome

pub data CacheStatus : Type 0 where
  hit miss bypass : CacheStatus

-- What is recorded: `record_error`, `record_cache`, `record_request` with the alias, the provider
-- (`none` and `cache` of the source have no provider), the outcome and whether it streams, and
-- `record_usage`; a `latency_metric` is `observe_latency`, with the ticks of `perf_counter`.
pub data Metric : Type 0 where
  error_metric : ErrorKind → Metric
  cache_metric : CacheStatus → Metric
  request_metric : String → Option String → Outcome → Bool → Metric
  latency_metric : String → Bool → ℕ → Metric
  usage_metric : Option String → String → ℕ → ℕ → ℕ → Metric

-- `error_reply` has the status, the error's type and the Retry-After header.
pub data Reply : Type 0 where
  error_reply : ℕ → ErrorKind → Option ℕ → Reply
  forwarded : ℕ → Json → Reply
  from_cache : ChatCompletionResponse → Reply
  answered : ChatCompletionResponse → Target → Reply
  streaming : Opened → Target → Reply
  crashed : Reply

module _ (redis : Redis) (faiss : Faiss) (Adapter : Type 0) where
  pub record AppConfig : Type 0 where
    pub tenants : TenantRegistry
    pub aliases : Dict String (Policy × List Target)
    pub registry : Dict String Adapter
    pub settings : Settings
    pub pricebook : PriceBook
    pub window : ℕ
    pub second : ℕ
    pub cache_per_tenant : Bool

  pub record State : Type 0 where
    pub store : redis.Store
    pub cache : Option (SemanticCache faiss ChatCompletionResponse)
    pub tick : ℕ
    pub shared : Shared
    pub metrics : List Metric

  -- `number_of` is what the limiter's arithmetic takes a JSON value for, `int_of` what `int` does;
  -- `none` is an exception.
  pub record Outside : Type 0 where
    pub env : Env Adapter ChatCompletionResponse
    pub stream_env : Env Adapter Opened
    pub uniform : ℕ → ℕ → ℕ
    pub perf_counter : ℕ → ℕ
    pub limiter_now : ℕ
    pub cache_now : ℕ
    pub written_now : ℕ
    pub encoder : Option (String → ℕ)
    pub str : Json → String
    pub embed : String → faiss.Vector
    pub dumps : Json → String
    pub dumps_scope : ScopeKey → String
    pub number_of : Json → Option ℤ
    pub int_of : Json → Option ℕ
