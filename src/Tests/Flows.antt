-- ===== src/Tests/Flows.antt =====
-- A stream through the whole pipeline to its end, a refusal, and the scopes of two tenants.
use switchyard_llm.Prelude.{
  arith, ◌≡◌, ℕ, List, Option, refl, string_eq, Bool, true, [], ◌∷◌, none, some, lookup, min,
}
use switchyard_llm.Prelude.Int.{ℤ, pos, ◌-ℤ◌, ◌+ℤ◌, scale, min_ℤ}
use switchyard_llm.Schemas.{Json, ChatCompletionRequest}
use switchyard_llm.Limiter.{
  Field, ts_field, level_field, request_key, token_key, check, level, refilled, script, consume,
  save, reply, wait_for, reconcile,
}
use switchyard_llm.Limiter.Script.{Holds}
use switchyard_llm.Tenancy
use switchyard_llm.Tenancy.{Tenant}
use switchyard_llm.Tenancy.{
  enabled, find, extract_bearer, split, is_space, estimate_tokens, input_tokens, count_text,
  content_text, output_estimate,
}
use switchyard_llm.Executor.{
  returned, run, loop, visit, attempt, settle, pause, ceiling, report_success, observe,
}
use switchyard_llm.Routing.{resolve, apply_policy, priority}
use switchyard_llm.Breaker.{allow, record_success, append_bounded}
use switchyard_llm.Breaker.Registry.{get, put}
use switchyard_llm.Gateway.{
  State, AppConfig, Outside, Opened, chat_completions, route, admit, opened_reply,
  streaming_completion, cache_scope,
}
use switchyard_llm.Gateway.Delivery.{deliver}
use switchyard_llm.Gateway.Streams.{stream_bill}
use switchyard_llm.Gateway.Refusals.{Refused, chat_completions-Refused}
use switchyard_llm.Gateway.Isolation.{HasNoSeparator, cache_scope-HasNoSeparator}
use switchyard_llm.Streaming.{exhausted, tap, truthy}
use switchyard_llm.Tests.Components.{targets, request, chunk}
use switchyard_llm.Tests.Stores.{write, table, acme, admitted_store, allowed_result}
use switchyard_llm.Tests.Vectors.{flat}
use switchyard_llm.Tests.Requests.{gemini}
use switchyard_llm.Tests.Pipeline.{config, state, outside}

abbrev one_chunk : Opened
one_chunk = (some (chunk 7), [], exhausted)

abbrev count_of : Json → Option ℤ
count_of (Json.count n) = some (pos n)
count_of j = none

abbrev streaming_outside : Outside table flat Bool
streaming_outside = record outside {
  stream_env = record {
    now = λ n. min n 100;
    uniform = λ n c. c;
    call = λ n a x. returned one_chunk;
    others = λ n x. x;
  };
  number_of = count_of;
}

abbrev streamed : ChatCompletionRequest
streamed = record (request (some (pos 5))) { stream = true }

abbrev key : Option (List ℕ)
key = some (b's' ∷ b'k' ∷ [])

-- The state that the stream ends in: another request has charged the bucket meanwhile.
abbrev waiting : State table flat Bool
waiting = record state {
  store =
      write (token_key table 60 acme) ts_field (pos 9)
        (write (token_key table 60 acme) level_field (pos 4800) admitted_store);
}

waiting-Holds : Holds table (token_key table 60 acme) (pos 4800) 9 waiting.store
waiting-Holds = record { amount_is = refl; time_is = refl }

stream_bill_example :
    let est = estimate_tokens streaming_outside.encoder streaming_outside.str streamed in
    let returned = (chat_completions config streaming_outside streamed key state).1.store in
    let v =
      (deliver config streaming_outside (some acme) est gemini one_chunk none waiting).store in
    Holds table (token_key table 60 acme) (pos 6000 -ℤ scale 60 est) 7 returned
    × Holds table (request_key table 60 acme) (pos 120 -ℤ pos 60) 7 returned
    × Holds table (token_key table 60 acme) (pos 4800 +ℤ scale 60 (est -ℤ pos 7)) 9 v
    × ((f : Field)
        → table.hget (request_key table 60 acme) f v
          ≡ table.hget (request_key table 60 acme) f waiting.store)
unfolding chat_completions route admit opened_reply streaming_completion run loop visit attempt
    settle pause ceiling report_success observe allow get put record_success append_bounded enabled
    Tenancy.resolve find extract_bearer split is_space resolve apply_policy priority lookup level
    refilled min_ℤ ◌+ℤ◌ ◌-ℤ◌ check script consume save reply scale wait_for estimate_tokens
    input_tokens count_text content_text output_estimate reconcile tap truthy
stream_bill_example =
    stream_bill config streaming_outside streamed key acme targets state (pos 120) (pos 6000)
      (pos 7) allowed_result admitted_store (some (chunk 7)) [] exhausted gemini none waiting
      (pos 4800) 9 refl refl refl refl refl refl refl refl refl refl waiting-Holds

chat_completions-Refused_example :
    Refused config outside state (chat_completions config outside (request none) none state)
unfolding chat_completions route enabled Tenancy.resolve find extract_bearer
chat_completions-Refused_example =
    chat_completions-Refused config outside (request none) none state refl

abbrev apart : AppConfig table flat Bool
apart = record config { cache_per_tenant = true }

-- The same tenant after a change of its limits.
abbrev acme_limited : Tenant
acme_limited = record acme { requests_per_min = 1 }

acme-HasNoSeparator : HasNoSeparator "acme"
acme-HasNoSeparator = (
  λ e. omega (arith, e),
  (λ e. omega (arith, e), (λ e. omega (arith, e), (λ e. omega (arith, e), tt))),
)

cache_scope-HasNoSeparator_example : acme.id ≡ acme_limited.id
unfolding cache_scope
cache_scope-HasNoSeparator_example =
    cache_scope-HasNoSeparator apart outside acme acme_limited (request none) (request none) refl
      acme-HasNoSeparator acme-HasNoSeparator refl
