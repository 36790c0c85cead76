-- ===== src/Startup/Ready.antt =====
-- main.py: what holds of a gateway that has started.
use switchyard_llm.Prelude.{
  ℕ, ◌≡◌, refl, String, string_eq, List, [], Option, none, some, ap, true, if◌then◌else◌, Dict,
  lookup, Option-cases, sym, subst, inl, inr, arith,
}
use switchyard_llm.Breaker
use switchyard_llm.Breaker.Invariant
use switchyard_llm.Breaker.Registry.{breaker_of, get, snapshot}
use switchyard_llm.Cache.{Faiss, SemanticCache, contains}
use switchyard_llm.Cache.Invariant.{IsValid}
use switchyard_llm.Limiter.{Redis}
use switchyard_llm.Providers.{Text, AdapterConfig, ProviderConfig}
use switchyard_llm.Providers
use switchyard_llm.Providers.Loading.{
  DistinctKeys, registered, Authorized, lookup-from_config, registered-Authorized,
  missing_unauthorized,
}
use switchyard_llm.Routing.{Policy, Loaded, loaded, unknown_policy, no_targets}
use switchyard_llm.Routing
use switchyard_llm.Routing.Aliases.{Stocked, Checked, from_config-Checked}
use switchyard_llm.Schemas.{Target, ChatCompletionResponse}
use switchyard_llm.Tenancy.{TenantRegistry}
use switchyard_llm.Tenancy.Loading.{load_tenants}
use switchyard_llm.Signals.Prices.{load_prices}
use switchyard_llm.Startup.{Settings, Files, aliases_of, App, app_of, new_cache, lifespan, healthz}

module _ (redis : Redis) (faiss : Faiss) (second one : ℕ) (getenv : Text → Option Text)
    (settings : Settings faiss.Similarity) (files : Files) (store : redis.Store) where
  new_cache-IsValid : IsValid (new_cache redis faiss second one settings)
  unfolding lookup contains
  new_cache-IsValid = record {
    covered = λ i. refl;
    distinct = tt;
    scoped = λ scope index i h held. absurd (ground (arith, h));
    fresh = λ i h. refl;
  }

  started_cache :
      (c : SemanticCache faiss ChatCompletionResponse)
      → (if settings.cache_enabled then some (new_cache redis faiss second one settings) else none)
        ≡ some c
      → IsValid c
        × (c.threshold ≡ settings.cache_similarity_threshold)
        × (c.max_entries ≡ settings.cache_max_entries)
        × (settings.cache_enabled ≡ true)
  started_cache c h =
      let same : new_cache redis faiss second one settings ≡ c = ground (arith, h) in
      (
        subst IsValid same new_cache-IsValid,
        ap (λ (x : SemanticCache faiss ChatCompletionResponse). x.threshold) (sym same),
        ap (λ (x : SemanticCache faiss ChatCompletionResponse). x.max_entries) (sym same),
        ground (arith, h),
      )

  aliases_of-Stocked :
      (l : Loaded) (aliases : Dict String (Policy × List Target))
      → aliases_of l ≡ some aliases
      → Checked l
      → Stocked aliases
  aliases_of-Stocked (loaded l) aliases e c =
      let same : l ≡ aliases = ground (arith, e) in subst Stocked same c
  aliases_of-Stocked (unknown_policy name policy) aliases e c = absurd (ground (arith, e))
  aliases_of-Stocked (no_targets name) aliases e c = absurd (ground (arith, e))

  -- The cache is valid, with the settings, and the breakers are; every alias has a target; the
  -- registry has for every name the adapter of its configuration, with a key with which the provider
  -- may be called, and leaves out only providers without one.
  pub record IsReady (app : App redis faiss second one) : Type 0 where
    pub cached :
        (c : SemanticCache faiss ChatCompletionResponse)
        → app.1.cache ≡ some c
        → IsValid c
          × (c.threshold ≡ settings.cache_similarity_threshold)
          × (c.max_entries ≡ settings.cache_max_entries)
          × (settings.cache_enabled ≡ true)
    pub breakers :
        (p : String)
        → Breaker.Invariant.IsValid app.0.settings.breaker (breaker_of p app.1.shared.breakers)
    pub stocked : Stocked app.0.aliases
    pub registry :
        (name : String)
        → lookup name app.0.registry ≡ registered getenv (lookup name files.providers)
    pub authorized :
        (name : String) (a : AdapterConfig)
        → lookup name app.0.registry ≡ some a
        → (p : ProviderConfig) × (lookup name files.providers ≡ some p)
          × Authorized getenv p a.api_key
    pub left_out :
        (name : String) (p : ProviderConfig) (key : Text)
        → lookup name files.providers ≡ some p
        → lookup name app.0.registry ≡ none
        → ¬ Authorized getenv p key

  -- How a start that succeeds came about.
  abbrev pub Started : App redis faiss second one → Type 0
  Started app =
      (registry : Dict String AdapterConfig) × (aliases : Dict String (Policy × List Target))
      × (tenants : TenantRegistry) × (Providers.from_config getenv files.providers []
          ≡ some registry)
      × (aliases_of (Routing.from_config one files.models []) ≡ some aliases)
      × (load_tenants files.tenants ≡ some tenants)
      × (app
          ≡ app_of redis faiss second one settings store registry (load_prices files.pricing)
              aliases tenants)

  pub lifespan-Started :
      (app : App redis faiss second one)
      → lifespan redis faiss second one getenv settings files store ≡ some app
      → Started app
  unfolding lifespan
  lifespan-Started app e = elim (Option-cases (Providers.from_config getenv files.providers [])) [
    | inl bad ↦ absurd (ground (arith, e, bad))
    | inr (registry, p) ↦
        elim (Option-cases (aliases_of (Routing.from_config one files.models []))) [
          | inl bad ↦ absurd (ground (arith, e, p, bad))
          | inr (aliases, q) ↦ elim (Option-cases (load_tenants files.tenants)) [
            | inl bad ↦ absurd (ground (arith, e, p, q, bad))
            | inr (tenants, r) ↦ (registry, aliases, tenants, p, q, r, ground (arith, e, p, q, r))
          ]
        ]
  ]

  -- A gateway whose providers have distinct names is ready when it has started. A cache is there only
  -- if it is enabled, is valid and has the configured threshold and size; the breakers are valid, and
  -- no circuit is shown by `healthz` yet; every alias has a target. An adapter of the registry is
  -- that of a configured provider and has its key: none where `auth` is `none`, and else the value,
  -- set and not empty, of the variable that the provider names. A configured provider without an
  -- adapter has no such key.
  pub lifespan-IsReady :
      (app : App redis faiss second one)
      → DistinctKeys files.providers
      → lifespan redis faiss second one getenv settings files store ≡ some app
      → IsReady app × ((healthz app.1).circuits ≡ [])
  unfolding healthz snapshot get lookup
  lifespan-IsReady app d e =
      let (registry, aliases, tenants, p, q, r, is_it) = lifespan-Started app e in
      subst (λ (a : App redis faiss second one). IsReady a × ((healthz a.1).circuits ≡ []))
        (sym is_it)
        (
          record {
            cached = λ c h. started_cache c h;
            breakers = λ p. record { bounded = omega arith; probes = omega arith };
            stocked = aliases_of-Stocked _ aliases q (from_config-Checked one files.models);
            registry = λ name. lookup-from_config getenv files.providers registry name d p;
            authorized = λ name a. registered-Authorized getenv files.providers registry name a d p;
            left_out =
                λ name q key. missing_unauthorized getenv files.providers registry name q key d p;
          },
          refl,
        )
