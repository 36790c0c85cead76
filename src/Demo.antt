-- ===== src/Demo.antt =====
-- bench/demo_resilience.py: the demo over the mock upstream of bench/mock_upstream.py. The gateway is
-- the one that `lifespan` starts from the demo's configuration, with the shipped tenants file, which
-- is empty. A call of an adapter goes through the adapter of gateway/providers/openai_compat.py to
-- the mock server, with `encode` for the server's JSON. Subprocesses, waiting for them, temporary
-- files and printing are left out.
pub mod Outage
pub mod Phases
pub mod Driving
pub mod Ending
use switchyard_llm.Prelude.{
  ℕ, zero, suc, ◌+◌, String, string_eq, Bool, true, false, List, [], ◌∷◌, ◌++◌, Option, none, some,
  Dict, lookup, insert,
}
use switchyard_llm.Prelude.Int.{ℤ}
use switchyard_llm.Adapter
use switchyard_llm.Adapter.{
  Codec, Http, HttpResponse, response, failure, after_prefix, chat_completion,
}
use switchyard_llm.Cache.{Faiss}
use switchyard_llm.Gateway.{
  AppConfig, State, Outside, Reply, error_reply, forwarded, from_cache, answered, streaming,
  crashed, chat_completions,
}
use switchyard_llm.Limiter.{Redis}
use switchyard_llm.MockUpstream.{ServerState, initial, codes, serve, control_a}
use switchyard_llm.Providers.{Text, ProviderConfig, AdapterConfig}
use switchyard_llm.Routing.{AliasConfig, TargetConfig}
use switchyard_llm.Schemas.{Json, Message, ChatCompletionRequest}
use switchyard_llm.Signals.Prices.{PriceConfig}
use switchyard_llm.Startup.{Settings, default_settings, Files, App, lifespan, Health, healthz}

-- `http://127.0.0.1:{args.mock_port}` with the default port.
abbrev pub mock_url : Text
mock_url = codes "http://127.0.0.1:8100"

abbrev pub mock_config : String → ProviderConfig
mock_config path = record {
  auth = some "none";
  api_key_env = none;
  type = none;
  base_url = mock_url ++ codes path;
}

abbrev pub mock_target : String → TargetConfig
mock_target provider = record { provider = provider; model = "mock-model"; weight = none }

-- `_write_demo_config`, beside the gateway's own price and tenants files.
abbrev pub demo_files : Option (Dict String PriceConfig) → Files
demo_files pricing = record {
  providers = ("mock_a", mock_config "/a/v1") ∷ ("mock_b", mock_config "/b/v1") ∷ [];
  pricing = pricing;
  models =
      (
        "demo",
        record {
          policy = some "priority";
          targets = mock_target "mock_a" ∷ mock_target "mock_b" ∷ [];
        },
      )
      ∷ [];
  tenants = some [];
}

-- `CACHE_ENABLED=false`
abbrev pub demo_settings : {Similarity : Type 0} → Similarity → Settings Similarity
demo_settings ninety = record (default_settings ninety) { cache_enabled = false }

-- The request of `_drive`.
abbrev pub demo_request : ChatCompletionRequest
demo_request = record {
  model = "demo";
  messages = record { role = "user"; content = Json.text "hi"; extra = [] } ∷ [];
  stream = false;
  temperature = Json.null;
  top_p = Json.null;
  max_tokens = none;
  n = none;
  stop = Json.null;
  extra = [];
}

-- The header `x-switchyard-provider`, or else the status.
abbrev pub label : (ℕ → String) → Reply → String
label http (answered r target) = target.provider
label http (streaming opened target) = target.provider
label http (error_reply status kind retry) = http status
label http (forwarded status body) = http status
label http (from_cache r) = http 200
label http crashed = http 500

abbrev pub plus_one : Option ℕ → ℕ
plus_one none = 1
plus_one (some n) = suc n

-- `providers[…] += 1`, of a `Counter`.
unfoldable pub count_up : String → Dict String ℕ → Dict String ℕ
count_up name counter = insert name (plus_one (lookup name counter)) counter

pub record DemoReport : Type 0 where
  pub phase1 : Dict String ℕ
  pub phase2 : Dict String ℕ
  pub circuits : Dict String String

module _ {redis : Redis} {faiss : Faiss} (second one : ℕ) (k : Codec) (encode : Json → Text)
    (http : ℕ → String) (o : Outside redis faiss AdapterConfig) where
  -- The post of an adapter's `chat_completion`, on the server in the state `s`.
  unfoldable pub post : ServerState → AdapterConfig → ChatCompletionRequest → Http HttpResponse
  unfolding serve after_prefix
  post s adapter request =
      elim (after_prefix mock_url (adapter.base_url ++ codes "/chat/completions")) [
        | none ↦ failure
        | some path ↦
            let (status, body) = serve s path (k.dump request) in
            response (record { status = status; content = encode body })
      ]

  -- What is outside the gateway, with the mock server in the state `s`.
  abbrev pub with_server : ServerState → Outside redis faiss AdapterConfig
  with_server s = record o {
    env = record o.env { call = λ n adapter request. chat_completion k (post s adapter request) };
  }

  -- `_drive`, from the counts so far.
  unfoldable pub drive :
      AppConfig redis faiss AdapterConfig
      → ServerState
      → ℕ
      → Dict String ℕ
      → State redis faiss AdapterConfig
      → Dict String ℕ × State redis faiss AdapterConfig
  unfolding count_up
  drive g server zero counter s = (counter, s)
  drive g server (suc n) counter s =
      let (reply, s') = chat_completions g (with_server server) demo_request none s in
      drive g server n (count_up (label http reply) counter) s'

  -- The two phases of `main` on a started gateway.
  unfoldable pub phases : App redis faiss second one → ℕ → DemoReport
  unfolding drive control_a healthz
  phases (g, s) n =
      let (phase1, s1) = drive g initial n [] s in
      let (server, reply) = control_a "fail" initial in
      let (phase2, s2) = drive g server n [] s1 in
      record { phase1 = phase1; phase2 = phase2; circuits = (healthz s2).circuits }

  -- `main`, with the getenv, the prices and the Redis store of the gateway's process.
  unfoldable pub main :
      (Text → Option Text)
      → faiss.Similarity
      → Option (Dict String PriceConfig)
      → redis.Store
      → ℕ
      → Option DemoReport
  unfolding phases
  main getenv ninety pricing store n =
      elim (lifespan redis faiss second one getenv (demo_settings ninety) (demo_files pricing)
        store) [ none ↦ none | some app ↦ some (phases app n) ]
