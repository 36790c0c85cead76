-- ===== src/Demo/Phases.antt =====
-- demo_resilience.py: the two phases on the gateway that has started from the demo's configuration.
use switchyard_llm.Prelude.{
  ℕ, ◌≡◌, refl, ◌∙◌, ap, String, string_eq, List, [], ◌∷◌, ◌++◌, Option, some, Dict, lookup, insert,
  arith,
}
use switchyard_llm.Adapter.{
  Codec, chat_completion, validate_body, validated, after_prefix, upstream_body, is_success,
}
use switchyard_llm.Cache.{Faiss}
use switchyard_llm.Demo.{mock_url, demo_files, demo_settings, post}
use switchyard_llm.Executor.{returned, upstream}
use switchyard_llm.Gateway.{Outside}
use switchyard_llm.Limiter.{Redis}
use switchyard_llm.MockUpstream.{
  ServerState, initial, codes, serve, backend_a, backend_b, model_of, completion_a, completion_b,
  down_body, control_a,
}
use switchyard_llm.Providers
use switchyard_llm.Providers.{
  build, adapter_type, expand_env, match_reference, AdapterConfig, openai_compat, Text,
}
use switchyard_llm.Routing
use switchyard_llm.Routing.{
  policy_named, Policy, by_priority, Router, resolve, apply_policy, priority, ordered,
}
use switchyard_llm.Schemas.{Json, ChatCompletionRequest, ChatCompletionResponse, Target}
use switchyard_llm.Signals.{PriceBook, RoutingSignals}
use switchyard_llm.Signals.Prices.{PriceConfig, load_prices}
use switchyard_llm.Tenancy.Loading.{load_tenants, load_entries}
use switchyard_llm.Startup.{App, lifespan, app_of}

-- json and pydantic on the mock's replies: both completions are read back and validate, and the
-- payload of a request has its model.
pub record Speaks (k : Codec) (encode : Json → Text) : Type 0 where
  pub answer_a : ChatCompletionResponse
  pub answer_b : ChatCompletionResponse
  pub reads_a :
      k.loads (encode (completion_a (Json.text "mock-model")))
      ≡ some (completion_a (Json.text "mock-model"))
  pub reads_b :
      k.loads (encode (completion_b (Json.text "mock-model")))
      ≡ some (completion_b (Json.text "mock-model"))
  pub validates_a : k.validate (completion_a (Json.text "mock-model")) ≡ some answer_a
  pub validates_b : k.validate (completion_b (Json.text "mock-model")) ≡ some answer_b
  pub dumps_model :
      (request : ChatCompletionRequest)
      → lookup "model" (k.dump request) ≡ some (Json.text request.model)

abbrev pub demo_target : ℕ → String → Target
demo_target one provider = record { provider = provider; model = "mock-model"; weight = one }

abbrev pub adapter_of : String → AdapterConfig
adapter_of path = record { kind = openai_compat; base_url = mock_url ++ codes path; api_key = [] }

module _ {redis : Redis} {faiss : Faiss} (second one : ℕ) (k : Codec) (encode : Json → Text)
    (http : ℕ → String) (o : Outside redis faiss AdapterConfig) (speaks : Speaks k encode)
    (mock_request : ChatCompletionRequest) (asks : mock_request.model ≡ "mock-model") where
  asked_model : model_of (k.dump mock_request) ≡ Json.text "mock-model"
  unfolding model_of
  asked_model = ground (arith, speaks.dumps_model mock_request, asks)

  pub a_answers :
      chat_completion k (post second one k encode http o initial (adapter_of "/a/v1") mock_request)
      ≡ returned speaks.answer_a
  unfolding chat_completion post serve backend_a after_prefix is_success
  a_answers =
      ap (λ (j : Json). validate_body k (k.loads (encode (completion_a j)))) asked_model
      ∙ ap (validate_body k) speaks.reads_a
      ∙ ap validated speaks.validates_a

  pub a_is_down :
      chat_completion k (
        post second one k encode http o
          (control_a "fail" initial).0
          (adapter_of "/a/v1")
          mock_request)
      ≡ upstream 503 (upstream_body k (encode down_body))
  unfolding chat_completion post serve backend_a after_prefix is_success control_a
  a_is_down = refl

  pub b_answers :
      (server : ServerState)
      → chat_completion k (post second one k encode http o server (adapter_of "/b/v1") mock_request)
        ≡ returned speaks.answer_b
  unfolding chat_completion post serve backend_b after_prefix is_success
  b_answers server =
      ap (λ (j : Json). validate_body k (k.loads (encode (completion_b j)))) asked_model
      ∙ ap (validate_body k) speaks.reads_b
      ∙ ap validated speaks.validates_b

abbrev pub demo_aliases : ℕ → Dict String (Policy × List Target)
demo_aliases one =
    ("demo", (by_priority, demo_target one "mock_a" ∷ demo_target one "mock_b" ∷ [])) ∷ []

abbrev pub demo_registry : Dict String AdapterConfig
demo_registry = ("mock_a", adapter_of "/a/v1") ∷ ("mock_b", adapter_of "/b/v1") ∷ []

pub demo_resolves :
    (one : ℕ) (signals : Option RoutingSignals) (uniform : ℕ → ℕ → ℕ) (tick : ℕ)
    → resolve (record { aliases = demo_aliases one; signals = signals }) uniform tick "demo"
      ≡ ordered (demo_target one "mock_a" ∷ demo_target one "mock_b" ∷ [])
unfolding resolve apply_policy priority lookup
demo_resolves one signals uniform tick = refl

-- What the start-up makes of the demo's configuration.
abbrev pub demo_app :
    (redis : Redis) (faiss : Faiss) (second one : ℕ)
    → faiss.Similarity
    → redis.Store
    → PriceBook
    → App redis faiss second one
demo_app redis faiss second one ninety store book =
    app_of redis faiss second one (demo_settings ninety) store demo_registry book (demo_aliases one)
      []

pub demo_starts :
    (redis : Redis) (faiss : Faiss) (second one : ℕ) (getenv : Text → Option Text)
    (ninety : faiss.Similarity) (pricing : Option (Dict String PriceConfig)) (store : redis.Store)
    → lifespan redis faiss second one getenv (demo_settings ninety) (demo_files pricing) store
      ≡ some (demo_app redis faiss second one ninety store (load_prices pricing))
unfolding lifespan Providers.from_config build adapter_type expand_env match_reference
    Routing.from_config Routing.target_of policy_named load_tenants load_entries insert
demo_starts redis faiss second one getenv ninety pricing store = refl
