-- ===== src/Lib.antt =====
-- Switchyard LLM Gateway: a gateway that takes OpenAI-style chat completions, authenticates the
-- tenant, charges two token buckets in Redis, answers from a semantic cache or from one of several
-- providers behind circuit breakers, and settles the charge with what was really used.
--
-- Prelude (Tests, Lists, Assoc, Int): tests and conditionals, lists with native numbers,
--   dictionaries, integers over the native numbers.
-- Schemas: gateway/schemas.py, with parsed JSON and `Target`.
-- Breaker: gateway/resilience/circuit_breaker.py, `CircuitBreaker`; Breaker/Registry the
--   `BreakerRegistry`; Invariant, Window, Tripping and Probes have the theorems.
-- Executor: gateway/resilience/retry.py, `ResilientExecutor`. `execute` and `execute_stream` run the
--   same loop with another upstream call, so `run` is generic in what a call returns. Trace and
--   Calls relate a run to the sequence of its calls; Answers, Healthy, Fallback, Backoff and Leak have
--   the theorems.
-- Limiter: gateway/ratelimit/limiter.py, the Lua script, `check` and `reconcile`; Script, Refund,
--   Rate, Waiting and Expiry have the theorems.
-- Tenancy: gateway/tenancy/auth.py and gateway/ratelimit/estimate.py; Bearer, Loading, Estimate.
-- Cache: gateway/cache/semantic_cache.py, `SemanticCache`; Keys the text and the scope that it is
--   asked with; Invariant, Eviction, Serving and Kept.
-- Signals: gateway/routing/signals.py and gateway/observability/cost.py; Average and
--   Prices.
-- Routing: gateway/routing/policies.py and gateway/routing/router.py; Sort, Weighted, Orders,
--   Aliases.
-- Streaming: gateway/streaming/sse.py and gateway/providers/gemini.py; Frames and Lookahead.
-- Gateway: gateway/main.py, `chat_completions` and `_streaming_completion`, which put the other parts
--   together in the order of the source, with their types in Model, what follows the executor's
--   call in Outcomes and `on_finish` in Delivery;
--   Charge, Accounting and Streams follow the charge to its end, Refusals and Isolation say what a
--   request leaves alone, Passing what it has passed, Attempts and Requests what it records;
--   Calls turns what is recorded into calls of Metrics, whose counters Counters follows.
-- Adapter: gateway/providers/openai_compat.py and base.py, and the frames of sse.py as lines; Lines
--   and Calls.
-- Providers: gateway/providers/registry.py; Expansion, Loading and Configured.
-- Metrics: gateway/observability/metrics.py; Sums.
-- Workload: bench/workload.py, with its lists in Corpus; Bases, Labelling, Draws and
--   Labels.
-- Benchmark: bench/run_benchmark.py, the runs, and what is computed from them in Summary, `benchmark`
--   in Results, and `render_markdown` and `main` in Markdown; Items, Counts, Recall, Percentile,
--   Total, Tables and Reporting.
-- Embedder: gateway/cache/embedder.py, the lazy loading of the model, as a step relation over any
--   number of threads; Loading.
-- Startup: gateway/main.py, `lifespan` and `healthz`, with gateway/config.py; Ready, and Answering,
--   which follows an answer of the pipeline back to the configuration.
-- MockUpstream: bench/mock_upstream.py, the handlers.
-- Demo: bench/demo_resilience.py, over the start-up, the pipeline, the adapter and the mock; Phases
--   has its configuration, Outage the breaker, Driving a phase and Ending the report.
-- Tests: runs at concrete inputs, with a Redis store and a vector index as functions.
--
-- Outside code is a parameter: Redis, FAISS, the registry of counters and Python's random generator
-- are records of operations with their documented effects, json, pydantic and httpx are functions,
-- the clock, the random draws, the upstream calls and the effects that other requests have on the
-- breakers and the signals while one awaits are functions of a count of the interactions. Within one
-- request nobody else changes the Redis store or the cache, and no key expires; the end of a stream
-- and the histories of the limiter start from any store. Numbers are whole: token counts and tenants' limits are natural numbers, latencies are fractions,
-- bucket levels are counted in window-ths of a token, weights and prices in units, so that no
-- rounding of floats is modelled. The loop of `weighted` runs on as much fuel as there are targets,
-- which is enough when every draw is at most the total that it is made for.
--
-- Not modelled: the opening and parsing of the YAML files, the metrics endpoint, which returns the
-- library's rendering, the paths and addresses of the settings, the encoding of texts, the request
-- headers of the adapters, the parsing of the command lines, and of the demo the subprocesses, the
-- waiting for them and the printing.
pub mod Adapter
pub mod Benchmark
pub mod Breaker
pub mod Cache
pub mod Demo
pub mod Embedder
pub mod Executor
pub mod Gateway
pub mod Limiter
pub mod Metrics
pub mod MockUpstream
pub mod Prelude
pub mod Providers
pub mod Routing
pub mod Schemas
pub mod Signals
pub mod Startup
pub mod Streaming
pub mod Tenancy
pub mod Tests
pub mod Workload
