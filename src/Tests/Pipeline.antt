-- ===== src/Tests/Pipeline.antt =====
-- One request through the whole pipeline.
use switchyard_llm.Prelude.{
  ℕ, String, ◌+◌, ◌≡◌, refl, string_eq, Bool, false, [], ◌∷◌, none, some, lookup, min,
}
use switchyard_llm.Prelude.Int.{pos, ◌-ℤ◌, ◌+ℤ◌, scale, min_ℤ}
use switchyard_llm.Schemas.{ChatCompletionResponse}
use switchyard_llm.Limiter.{
  request_key, token_key, check, level, refilled, script, consume, save, reply, wait_for, reconcile,
}
use switchyard_llm.Limiter.Script.{Holds}
use switchyard_llm.Tenancy
use switchyard_llm.Tenancy.{
  enabled, find, extract_bearer, split, is_space, estimate_tokens, input_tokens, count_text,
  content_text, output_estimate,
}
use switchyard_llm.Executor.{
  Env, returned, timed_out, run, loop, visit, attempt, settle, pause, ceiling, report_success,
  observe,
}
use switchyard_llm.Routing.{by_priority, resolve, apply_policy, priority}
use switchyard_llm.Breaker.{allow, record_success, append_bounded}
use switchyard_llm.Breaker.Registry.{get, put}
use switchyard_llm.Gateway.{
  AppConfig, State, Outside, Opened, chat_completions, route, admit, read_cache, complete,
  completed_reply, account, write_cache,
}
use switchyard_llm.Gateway.Accounting.{request_bill}
use switchyard_llm.Gateway.Calls.{calls}
use switchyard_llm.Gateway.Counters.{
  requests_counter, labels_of, one_if, request_counted, unlisted_uncounted,
}
use switchyard_llm.Metrics.{requests}
use switchyard_llm.Metrics.Sums.{apply_all}
use switchyard_llm.Tests.Meters.{meter}
use switchyard_llm.Tests.Components.{targets, request}
use switchyard_llm.Tests.Stores.{table, acme, empty, admitted_store, allowed_result}
use switchyard_llm.Tests.Vectors.{flat}
use switchyard_llm.Tests.Requests.{settings, registry}

abbrev response : ChatCompletionResponse
response = record {
  id = "r1";
  object = "chat.completion";
  created = 0;
  model = "m2";
  choices = [];
  usage = some (record { prompt_tokens = 3; completion_tokens = 4; total_tokens = 7 });
}

abbrev pub config : AppConfig table flat Bool
config = record {
  tenants = ((b's' ∷ b'k' ∷ []), acme) ∷ [];
  aliases = ("fast", (by_priority, targets)) ∷ [];
  registry = registry;
  settings = settings;
  pricebook = [];
  window = 60;
  second = 1;
  cache_per_tenant = false;
}

abbrev pub state : State table flat Bool
state = record {
  store = empty;
  cache = none;
  tick = 0;
  shared = record { breakers = []; signals = none };
  metrics = [];
}

abbrev stream_env : Env Bool Opened
stream_env = record {
  now = λ n. min n 100;
  uniform = λ n c. c;
  call = λ n a x. timed_out;
  others = λ n x. x;
}

abbrev env : Env Bool ChatCompletionResponse
env = record {
  now = λ n. min n 100;
  uniform = λ n c. c;
  call = λ n a x. returned response;
  others = λ n x. x;
}

abbrev pub outside : Outside table flat Bool
outside = record {
  env = env;
  stream_env = stream_env;
  uniform = λ n c. 0;
  perf_counter = λ n. n;
  limiter_now = 7;
  cache_now = 7;
  written_now = 8;
  encoder = some (λ t. 2);
  str = λ j. "";
  embed = λ t. 1;
  dumps = λ j. "";
  dumps_scope = λ k. k.model;
  number_of = λ j. none;
  int_of = λ j. none;
}

request_bill_example :
    let v =
      (chat_completions config outside
        (request (some (pos 5)))
        (some (b's' ∷ b'k' ∷ []))
        state).1.store in
    Holds table (token_key table 60 acme) (pos 6000 -ℤ scale 60 (pos 7)) 7 v
    × Holds table (request_key table 60 acme) (pos 120 -ℤ pos 60) 7 v
unfolding chat_completions route admit read_cache complete completed_reply account write_cache run
    loop visit attempt settle pause ceiling report_success observe allow get put record_success
    append_bounded enabled Tenancy.resolve find extract_bearer split is_space resolve apply_policy
    priority lookup level refilled min_ℤ ◌+ℤ◌ ◌-ℤ◌ check script consume save reply scale wait_for
    estimate_tokens input_tokens count_text content_text output_estimate reconcile
request_bill_example =
    request_bill config outside (request (some (pos 5))) (some (b's' ∷ b'k' ∷ [])) acme targets
      state (pos 120) (pos 6000) (pos 7) allowed_result admitted_store refl refl refl refl refl refl
      refl refl

abbrev digits : ℕ → String
digits n = "502"

request_counted_example :
    let r =
      chat_completions config outside (request (some (pos 5))) (some (b's' ∷ b'k' ∷ [])) state in
    let b = requests_counter ("fast" ∷ "gemini" ∷ "success" ∷ "false" ∷ []) in
    meter.value (apply_all meter (calls digits r.1.metrics) (λ s. 0)) b
    ≡ meter.value (apply_all meter (calls digits state.metrics) (λ s. 0)) b
      + one_if
          (labels_of (request (some (pos 5))) r.0)
          ("fast" ∷ "gemini" ∷ "success" ∷ "false" ∷ [])
unfolding chat_completions route admit read_cache complete completed_reply account write_cache run
    loop visit attempt settle pause ceiling report_success observe allow get put record_success
    append_bounded enabled Tenancy.resolve find extract_bearer split is_space resolve apply_policy
    priority lookup level refilled min_ℤ ◌+ℤ◌ ◌-ℤ◌ check script consume save reply scale wait_for
    estimate_tokens input_tokens count_text content_text output_estimate reconcile
request_counted_example =
    request_counted digits config outside (request (some (pos 5))) (some (b's' ∷ b'k' ∷ [])) state
      meter (λ s. 0) ("fast" ∷ "gemini" ∷ "success" ∷ "false" ∷ []) refl

unlisted_uncounted_example :
    let r =
      chat_completions config outside (request (some (pos 5))) (some (b's' ∷ b'k' ∷ [])) state in
    let b = requests "slow" "a" "success" false in
    meter.value (apply_all meter (calls digits r.1.metrics) (λ s. 0)) b
    ≡ meter.value (apply_all meter (calls digits state.metrics) (λ s. 0)) b
unfolding chat_completions route admit read_cache complete completed_reply account write_cache run
    loop visit attempt settle pause ceiling report_success observe allow get put record_success
    append_bounded enabled Tenancy.resolve find extract_bearer split is_space resolve apply_policy
    priority lookup level refilled min_ℤ ◌+ℤ◌ ◌-ℤ◌ check script consume save reply scale wait_for
    estimate_tokens input_tokens count_text content_text output_estimate reconcile
unlisted_uncounted_example =
    unlisted_uncounted digits config outside (request (some (pos 5))) (some (b's' ∷ b'k' ∷ []))
      state meter (λ s. 0) "slow" "a" "success" false refl refl
