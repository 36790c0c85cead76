-- ===== src/Startup.antt =====
-- gateway/main.py: `lifespan` up to its `yield`, and `healthz`; gateway/config.py: the `Settings`
-- that the start-up reads. The files arrive as their readers' parsers leave them. `lifespan` is `none`
-- where a configuration raises, and then the gateway does not start. The executor's clock counts
-- nanoseconds, the limiter's and the cache's `second` ticks a second; `one` is the number of units of
-- the routing weight 1.0. The HTTP and Redis clients, which are made here and closed at the end, are
-- what the calls of the other parts stand for. Log lines are left out.
pub mod Ready
pub mod Answering
use switchyard_llm.Prelude.{
  ℕ, ◌*◌, String, Bool, true, false, List, [], ◌∷◌, Option, none, some, Dict, if◌then◌else◌,
}
use switchyard_llm.Schemas.{ChatCompletionResponse, Target}
use switchyard_llm.Breaker.{Config}
use switchyard_llm.Breaker.Registry.{snapshot}
use switchyard_llm.Executor.{nanoseconds, Shared}
use switchyard_llm.Executor
use switchyard_llm.Signals.{RoutingSignals, PriceBook}
use switchyard_llm.Signals.Prices.{PriceConfig, load_prices}
use switchyard_llm.Routing.{Policy, Loaded, loaded, unknown_policy, no_targets, AliasConfig}
use switchyard_llm.Routing
use switchyard_llm.Tenancy.{TenantRegistry}
use switchyard_llm.Tenancy.Loading.{TenantConfig, load_tenants}
use switchyard_llm.Limiter.{Redis}
use switchyard_llm.Cache.{Faiss, SemanticCache}
use switchyard_llm.Providers.{Text, ProviderConfig, AdapterConfig}
use switchyard_llm.Providers
use switchyard_llm.Gateway.{AppConfig, State}

pub record Settings (Similarity : Type 0) : Type 0 where
  pub rate_limit_window_s : ℕ
  pub cache_enabled : Bool
  pub cache_similarity_threshold : Similarity
  pub cache_ttl_s : ℕ
  pub cache_max_entries : ℕ
  pub cache_per_tenant : Bool

-- The defaults, with 0.90 as a similarity.
abbrev pub default_settings : {Similarity : Type 0} → Similarity → Settings Similarity
default_settings ninety = record {
  rate_limit_window_s = 60;
  cache_enabled = true;
  cache_similarity_threshold = ninety;
  cache_ttl_s = 3600;
  cache_max_entries = 10000;
  cache_per_tenant = false;
}

-- What stands in the four files: under `providers`, `models` of the price file, `aliases` and
-- `tenants`. A price or tenants file that does not exist is `none`.
pub record Files : Type 0 where
  pub providers : Dict String ProviderConfig
  pub pricing : Option (Dict String PriceConfig)
  pub models : List (String × AliasConfig)
  pub tenants : Option (List (List ℕ × TenantConfig))

-- The defaults of `CircuitBreaker.__init__`, which `BreakerRegistry` passes nothing to.
abbrev pub breaker_defaults : Config
breaker_defaults = record {
  threshold_num = 1;
  threshold_den = 2;
  window_size = 20;
  min_calls = 5;
  reset_timeout = 30 * nanoseconds;
  half_open_max = 1;
}

-- The defaults of `ResilientExecutor.__init__`.
abbrev pub executor_defaults : Executor.Settings
executor_defaults = record {
  breaker = breaker_defaults;
  base_delay = 200000000;
  max_delay = 2 * nanoseconds;
  deadline = 60 * nanoseconds;
}

-- `RoutingSignals(pricebook)`
abbrev pub new_signals : PriceBook → RoutingSignals
new_signals book = record { pricebook = book; alpha_num = 3; alpha_den = 10; latencies = [] }

-- The aliases of `Router.from_config`, if it does not raise.
abbrev pub aliases_of : Loaded → Option (Dict String (Policy × List Target))
aliases_of (loaded aliases) = some aliases
aliases_of (unknown_policy name policy) = none
aliases_of (no_targets name) = none

module _ (redis : Redis) (faiss : Faiss) (second one : ℕ) where
  abbrev pub App : Type 0
  App = AppConfig redis faiss AdapterConfig × State redis faiss AdapterConfig

  -- `SemanticCache(…)`
  abbrev pub new_cache : Settings faiss.Similarity → SemanticCache faiss ChatCompletionResponse
  new_cache settings = record {
    threshold = settings.cache_similarity_threshold;
    ttl = some (settings.cache_ttl_s * second);
    max_entries = settings.cache_max_entries;
    indexes = [];
    entries = [];
    lru = [];
    next_id = 0;
    dim = none;
  }

  abbrev pub app_of :
      Settings faiss.Similarity
      → redis.Store
      → Dict String AdapterConfig
      → PriceBook
      → Dict String (Policy × List Target)
      → TenantRegistry
      → App
  app_of settings store registry book aliases tenants = (
    record {
      tenants = tenants;
      aliases = aliases;
      registry = registry;
      settings = executor_defaults;
      pricebook = book;
      window = settings.rate_limit_window_s * second;
      second = second;
      cache_per_tenant = settings.cache_per_tenant;
    },
    record {
      store = store;
      cache = if settings.cache_enabled then some (new_cache settings) else none;
      tick = 0;
      shared = record { breakers = []; signals = some (new_signals book) };
      metrics = [];
    },
  )

  -- `lifespan`, with the environment's variables and what Redis holds.
  unfoldable pub lifespan :
      (Text → Option Text) → Settings faiss.Similarity → Files → redis.Store → Option App
  lifespan getenv settings files store = elim (Providers.from_config getenv files.providers []) [
    | none ↦ none
    | some registry ↦ elim (aliases_of (Routing.from_config one files.models [])) [
      | none ↦ none
      | some aliases ↦ elim (load_tenants files.tenants) [
        | none ↦ none
        | some tenants ↦
            some (app_of settings store registry (load_prices files.pricing) aliases tenants)
      ]
    ]
  ]

pub record Health : Type 0 where
  pub status : String
  pub circuits : Dict String String

-- `healthz`
unfoldable pub healthz :
    {redis : Redis} {faiss : Faiss} {Adapter : Type 0} → State redis faiss Adapter → Health
healthz s = record { status = "ok"; circuits = snapshot s.shared.breakers }
