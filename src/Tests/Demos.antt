-- ===== src/Tests/Demos.antt =====
-- The start-up and the resilience demo, over a codec that knows the mock's replies.
use switchyard_llm.Prelude.{
  ℕ, ◌+◌, ◌*◌, ◌≤◌, ◌≡◌, refl, String, string_eq, Bool, false, [], ◌∷◌, none, some, lookup, insert,
  arith, min, nat_beq, ◌==◌, if◌then◌else◌,
}
use switchyard_llm.Adapter.{Codec, after_prefix, chat_completion}
use switchyard_llm.Breaker.{allow, record_success, append_bounded}
use switchyard_llm.Breaker.Registry.{get, put}
use switchyard_llm.Routing.{resolve, apply_policy, priority}
use switchyard_llm.Signals.Prices.{load_prices}
use switchyard_llm.Startup.{App, healthz}
use switchyard_llm.Startup.Answering.{Configured, answered-Configured}
use switchyard_llm.Startup.Ready.{IsReady, lifespan-IsReady}
use switchyard_llm.Tenancy.{enabled}
use switchyard_llm.Adapter
use switchyard_llm.Demo.{
  DemoReport, main, demo_settings, demo_files, demo_request, with_server, post,
}
use switchyard_llm.Demo.Ending.{Absorbed, main-Absorbed}
use switchyard_llm.Demo.Phases.{Speaks, demo_app, demo_starts, demo_target}
use switchyard_llm.Executor.{
  Env, timed_out, nanoseconds, run, loop, visit, attempt, settle, pause, ceiling, report_success,
  observe,
}
use switchyard_llm.Gateway.{
  Outside, Opened, chat_completions, route, admit, read_cache, complete, completed_reply, account,
  write_cache,
}
use switchyard_llm.MockUpstream.{completion_a, completion_b, initial, serve, backend_a, model_of}
use switchyard_llm.Providers.{AdapterConfig}
use switchyard_llm.Schemas.{Json, ChatCompletionRequest, ChatCompletionResponse}
use switchyard_llm.Schemas
use switchyard_llm.Tests.Stores.{table, empty}
use switchyard_llm.Tests.Vectors.{flat}

-- The replies of the two backends, as one character each.
abbrev first_text : Json → String
first_text (Json.object (Schemas.field k (Json.text t) fields)) = t
first_text j = ""

abbrev encode : Json → Adapter.Text
encode j = if first_text j == "mock-a" then b'a' ∷ [] else b'b' ∷ []

abbrev mock_model : Json
mock_model = Json.text "mock-model"

abbrev is_a : Adapter.Text → Bool
is_a [] = false
is_a (c ∷ cs) = nat_beq c b'a'

abbrev answer : String → ChatCompletionResponse
answer id = record {
  id = id;
  object = "chat.completion";
  created = 0;
  model = "mock-model";
  choices = [];
  usage = some (record { prompt_tokens = 8; completion_tokens = 4; total_tokens = 12 });
}

abbrev mock_codec : Codec
mock_codec = record {
  loads = λ t. some (if is_a t then completion_a mock_model else completion_b mock_model);
  dumps = λ c. [];
  decode = λ t. "";
  validate = λ j. some (answer (first_text j));
  dump = λ r. ("model", Json.text r.model) ∷ [];
}

mock_codec-Speaks : Speaks mock_codec encode
unfolding lookup
mock_codec-Speaks = record {
  answer_a = answer "mock-a";
  answer_b = answer "mock-b";
  reads_a = refl;
  reads_b = refl;
  validates_a = refl;
  validates_b = refl;
  dumps_model = λ r. refl;
}

abbrev silent : Env AdapterConfig ChatCompletionResponse
silent = record {
  now = λ n. min n 100;
  uniform = λ n c. c;
  call = λ n a x. timed_out;
  others = λ n x. x;
}

abbrev silent_stream : Env AdapterConfig Opened
silent_stream = record {
  now = λ n. min n 100;
  uniform = λ n c. c;
  call = λ n a x. timed_out;
  others = λ n x. x;
}

abbrev around : Outside table flat AdapterConfig
around = record {
  env = silent;
  stream_env = silent_stream;
  uniform = λ n c. 0;
  perf_counter = λ n. n;
  limiter_now = 7;
  cache_now = 7;
  written_now = 8;
  encoder = some (λ t. 2);
  str = λ j. "";
  embed = λ t. 1;
  dumps = λ j. "";
  dumps_scope = λ k. k.model;
  number_of = λ j. none;
  int_of = λ j. none;
}

short_time : (m n : ℕ) → min n 100 ≤ min m 100 + 60 * nanoseconds
short_time m n = omega arith

main-Absorbed_example :
    (report : DemoReport) × (main 1 1 mock_codec encode
        (λ n. "HTTP")
        around
        (λ t. none)
        90
        none
        empty
        12
      ≡ some report)
    × Absorbed 12 report
main-Absorbed_example =
    main-Absorbed 1 1 mock_codec encode (λ n. "HTTP") around mock_codec-Speaks (λ t. none) 90 none
      empty (λ n x. refl) short_time 12

abbrev started : App table flat 1 1
started = demo_app table flat 1 1 90 empty (load_prices none)

lifespan-IsReady_example :
    IsReady table flat 1 1 (λ t. none) (demo_settings 90) (demo_files none) empty started
    × ((healthz started.1).circuits ≡ [])
unfolding lookup
lifespan-IsReady_example =
    lifespan-IsReady table flat 1 1 (λ t. none) (demo_settings 90) (demo_files none) empty started
      (refl, (refl, tt)) (demo_starts table flat 1 1 (λ t. none) 90 none empty)

no_draw : (k t : ℕ) → around.uniform k t ≤ t
no_draw k t = omega arith

answered-Configured_example :
    Configured table flat 1 1
      (λ t. none)
      (demo_settings 90)
      (demo_files none)
      empty
      started
      (with_server 1 1 mock_codec encode (λ n. "HTTP") around initial)
      demo_request
      (answer "mock-a")
      (demo_target 1 "mock_a")
unfolding lookup chat_completions route admit read_cache complete completed_reply account
    write_cache run loop visit attempt settle pause ceiling report_success observe allow get put
    record_success append_bounded enabled resolve apply_policy priority post serve after_prefix
    chat_completion backend_a model_of insert
answered-Configured_example =
    answered-Configured table flat 1 1 (λ t. none) (demo_settings 90) (demo_files none) empty
      started (with_server 1 1 mock_codec encode (λ n. "HTTP") around initial) demo_request
      (answer "mock-a") (demo_target 1 "mock_a") none started.1 no_draw (refl, (refl, tt))
      (demo_starts table flat 1 1 (λ t. none) 90 none empty) refl
