-- ===== src/Providers/Configured.antt =====
-- registry.py under the executor of retry.py: which providers a run can call.
use switchyard_llm.Prelude.{
  ℕ, ◌≡◌, sym, ◌∙◌, String, string_eq, List, [], ◌∷◌, ◌++◌, Option, some, Dict, lookup, All,
}
use switchyard_llm.Schemas.{ChatCompletionRequest, Target}
use switchyard_llm.Executor.{Outcome, Env, Settings, World, run}
use switchyard_llm.Executor.Calls.{Genuine, run-Genuine}
use switchyard_llm.Providers.{Text, ProviderConfig, AdapterConfig, from_config}
use switchyard_llm.Providers.Loading.{DistinctKeys, registered, lookup-from_config}

module _ {ℓ} {A : Type ℓ} (getenv : Text → Option Text) (cfg : Dict String ProviderConfig)
    (env : Env AdapterConfig A) (request : ChatCompletionRequest) where
  -- A call of the adapter of a configured provider, with the request for the target's model.
  abbrev pub Configured : Target × Outcome A → Type ℓ
  Configured (t, o) =
      (adapter : AdapterConfig) × (n : ℕ) × (registered getenv (lookup t.provider cfg)
        ≡ some adapter)
      × (o ≡ env.call n adapter (record request { model = t.model }))

  Genuine-Configured :
      (s : Settings) (registry : Dict String AdapterConfig) (cs : List (Target × Outcome A))
      → DistinctKeys cfg
      → from_config getenv cfg [] ≡ some registry
      → All (Genuine env s registry request) cs
      → All Configured cs
  Genuine-Configured s registry [] d made a = tt
  Genuine-Configured s registry ((t, o) ∷ cs) d made ((adapter, n, found, is_it), a) = (
    (adapter, n, sym (lookup-from_config getenv cfg registry t.provider d made) ∙ found, is_it),
    Genuine-Configured s registry cs d made a,
  )

  -- With the registry that `from_config` makes of a configuration with distinct names, every upstream
  -- call of a run goes to a provider of the configuration whose key is set or that needs none, with
  -- that provider's own adapter and with the request for the target's model.
  pub run-Configured :
      (s : Settings) (registry : Dict String AdapterConfig) (targets : List Target) (w : World A)
      → DistinctKeys cfg
      → from_config getenv cfg [] ≡ some registry
      → (cs : List (Target × Outcome A)) × ((run env s targets registry request w).1.calls
          ≡ w.calls ++ cs)
        × All Configured cs
  run-Configured s registry targets w d made =
      let (cs, grown, genuine) = run-Genuine env s registry request targets w in
      (cs, grown, Genuine-Configured s registry cs d made genuine)
