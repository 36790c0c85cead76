-- ===== src/Gateway/Calls.antt =====
-- main.py: the calls of observability/metrics.py behind the metrics that the pipeline records, with
-- their labels. `digits` is the text of a status in `f"upstream_{status}"`.
use Prim.Native.String.{◌++◌ as append}
use switchyard_llm.Prelude.{ℕ, String, Option, none, some, List, [], ◌∷◌}
use switchyard_llm.Metrics.Sums.{Event, request, timed, cache, failed, used}
use switchyard_llm.Gateway.Model.{
  Metric, error_metric, cache_metric, request_metric, latency_metric, usage_metric, ErrorKind,
  invalid_api_key, invalid_request_error, rate_limit_exceeded, all_targets_failed,
  stream_incomplete, upstream, Outcome, success, throttled, error, CacheStatus, hit, miss, bypass,
}

abbrev pub error_type : (ℕ → String) → ErrorKind → String
error_type digits invalid_api_key = "invalid_api_key"
error_type digits invalid_request_error = "invalid_request_error"
error_type digits rate_limit_exceeded = "rate_limit_exceeded"
error_type digits all_targets_failed = "all_targets_failed"
error_type digits stream_incomplete = "stream_incomplete"
error_type digits (upstream status) = append "upstream_" (digits status)

abbrev pub cache_event : CacheStatus → String
cache_event hit = "hit"
cache_event miss = "miss"
cache_event bypass = "bypass"

abbrev pub outcome_label : Outcome → String
outcome_label success = "success"
outcome_label throttled = "throttled"
outcome_label error = "error"

-- Only the cache succeeds without a provider.
abbrev pub provider_label : Option String → Outcome → String
provider_label (some provider) outcome = provider
provider_label none success = "cache"
provider_label none throttled = "none"
provider_label none error = "none"

abbrev pub tenant_label : Option String → String
tenant_label none = "anonymous"
tenant_label (some id) = id

abbrev pub call : (ℕ → String) → Metric → Event
call digits (error_metric kind) = failed (error_type digits kind)
call digits (cache_metric status) = cache (cache_event status)
call digits (request_metric alias provider outcome stream) =
    request alias (provider_label provider outcome) (outcome_label outcome) stream
call digits (latency_metric provider stream took) = timed provider stream took
call digits (usage_metric tenant provider prompt completion price) =
    used (tenant_label tenant) provider prompt completion price

abbrev pub calls : (ℕ → String) → List Metric → List Event
calls digits [] = []
calls digits (m ∷ ms) = call digits m ∷ calls digits ms
