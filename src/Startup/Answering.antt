-- ===== src/Startup/Answering.antt =====
-- main.py: the answers of a gateway that has started, over its configuration.
use mathlib.Core.List.{Mem, mem-cons_self, mem-cons_of_mem, Perm}
use mathlib.Core.List.Perm
use switchyard_llm.Prelude.{
  ℕ, ◌≤◌, ◌≡◌, sym, ◌∙◌, ap, subst, inl, inr, String, string_eq, List, [], ◌∷◌, Option, some, Dict,
  lookup, Option-cases, All, arith,
}
use switchyard_llm.Cache.{Faiss}
use switchyard_llm.Executor.{Outcome, returned, upstream, timed_out, transport, crashed, served}
use switchyard_llm.Executor.Ending.{run-Ended}
use switchyard_llm.Executor.Trace.{conclude}
use switchyard_llm.Gateway.{Outside, State, chat_completions, answered}
use switchyard_llm.Gateway.Answered.{answer_of, chat_completions-Routed}
use switchyard_llm.Limiter.{Redis}
use switchyard_llm.Providers.{Text, AdapterConfig}
use switchyard_llm.Providers.Loading.{DistinctKeys, registered, lookup-from_config}
use switchyard_llm.Routing.{
  Policy, Router, Loaded, loaded, unknown_policy, no_targets, resolve, ordered,
}
use switchyard_llm.Routing.Aliases.{resolve-Perm}
use switchyard_llm.Routing.Configured.{Lists, from_config-Lists}
use switchyard_llm.Schemas.{Target, ChatCompletionRequest, ChatCompletionResponse}
use switchyard_llm.Startup.{Settings, Files, App, lifespan, aliases_of}
use switchyard_llm.Startup.Ready.{lifespan-Started}

All-Mem {ℓ} :
    {A : Type ℓ} (xs ys : List A) → ((x : A) → Mem x xs → Mem x ys) → All (λ x. Mem x ys) xs
All-Mem [] ys h = tt
All-Mem (x ∷ xs) ys h = (h x mem-cons_self, All-Mem xs ys (λ y m. h y (mem-cons_of_mem x m)))

-- A run is served by a call that returned.
conclude_served :
    {A : Type 0} (u t : Target) (q : Outcome A) (a : A)
    → conclude u q ≡ served a t
    → (u ≡ t) × (q ≡ returned a)
conclude_served u t (returned b) a e = ground (arith, e)
conclude_served u t (upstream status body) a e = absurd (ground (arith, e))
conclude_served u t timed_out a e = absurd (ground (arith, e))
conclude_served u t transport a e = absurd (ground (arith, e))
conclude_served u t crashed a e = absurd (ground (arith, e))

aliases_of-loaded :
    (l : Loaded) (aliases : Dict String (Policy × List Target))
    → aliases_of l ≡ some aliases
    → l ≡ loaded aliases
aliases_of-loaded (loaded l) aliases e = ground (arith, e)
aliases_of-loaded (unknown_policy name policy) aliases e = absurd (ground (arith, e))
aliases_of-loaded (no_targets name) aliases e = absurd (ground (arith, e))

-- A resolved alias is one of the router's.
resolved_alias :
    (router : Router) (uniform : ℕ → ℕ → ℕ) (k : ℕ) (alias : String) (ts : List Target)
    → resolve router uniform k alias ≡ ordered ts
    → (policy : Policy) × (targets : List Target) × (lookup alias router.aliases
        ≡ some (policy, targets))
unfolding resolve
resolved_alias router uniform k alias ts e = elim (Option-cases (lookup alias router.aliases)) [
  | inl gone ↦ absurd (ground (arith, e, gone))
  | inr ((policy, targets), here) ↦ (policy, targets, here)
]

module _ (redis : Redis) (faiss : Faiss) (second one : ℕ) (getenv : Text → Option Text)
    (settings : Settings faiss.Similarity) (files : Files) (store : redis.Store)
    (app : App redis faiss second one) (o : Outside redis faiss AdapterConfig)
    (request : ChatCompletionRequest) (response : ChatCompletionResponse) (target : Target) where
  -- The answer stands in the configuration: the target under the alias, its provider with an adapter,
  -- and a call of that adapter returned it.
  abbrev pub Configured : Type 0
  Configured =
      (policy : Policy) × (targets : List Target) × (adapter : AdapterConfig) × (n : ℕ) × Lists one
        files.models request.model policy targets
      × Mem target targets
      × (registered getenv (lookup target.provider files.providers) ≡ some adapter)
      × (o.env.call n adapter (record request { model = target.model }) ≡ returned response)

  -- A gateway that has started from a configuration whose providers have distinct names answers, in
  -- any state, only with what a call returned: of the adapter of a configured provider, with a key or
  -- without need of one, for a target that the configuration lists under the requested alias, with
  -- the request for that target's model. The draws are at most the sums of weights they are made for.
  pub answered-Configured :
      (authorization : Option (List ℕ)) (s : State redis faiss AdapterConfig)
      → ((k t : ℕ) → o.uniform k t ≤ t)
      → DistinctKeys files.providers
      → lifespan redis faiss second one getenv settings files store ≡ some app
      → (chat_completions app.0 o request authorization s).0 ≡ answered response target
      → Configured
  answered-Configured authorization s draws d started e =
      let (registry, aliases, tenants, p, q, r, is_it) =
        lifespan-Started redis faiss second one getenv settings files store app started in
      let (ts, routed, (w, run_served)) =
        chat_completions-Routed app.0 o request response target authorization s (ap answer_of e) in
      let router : Router = record { aliases = app.0.aliases; signals = s.shared.signals } in
      let (policy, targets, here) =
        resolved_alias router o.uniform s.tick request.model ts routed in
      let (us, again, perm) =
        resolve-Perm router o.uniform draws s.tick request.model policy targets here in
      let same : us ≡ ts = ground (arith, again, routed) in
      let listed : Lists one files.models request.model policy targets =
        from_config-Lists one files.models aliases request.model policy targets
          (aliases_of-loaded _ aliases q)
          (ap (λ (a : App redis faiss second one). lookup request.model a.0.aliases) (sym is_it)
            ∙ here) in
      elim (run-Ended o.env app.0.settings app.0.registry request (λ t. Mem t targets) ts w
        (All-Mem ts targets (λ t m. (Perm.mem_iff (subst (λ l. Perm l targets) same perm)).0 m))) [
          | inl over ↦ absurd (ground (arith, over, run_served))
          | inr (u, q', m, (adapter, n, found, is_call), final, ends) ↦
              let (at, returns) = conclude_served u target q' response (sym ends ∙ run_served) in
              (
                policy,
                targets,
                adapter,
                n,
                listed,
                subst (λ t. Mem t targets) at m,
                sym (lookup-from_config getenv files.providers registry target.provider d p)
                    ∙ ap (λ (a : App redis faiss second one). lookup target.provider a.0.registry)
                        (sym is_it)
                    ∙ ap (λ (v : Target). lookup v.provider app.0.registry) (sym at)
                    ∙ found,
                ap (λ (v : Target). o.env.call n adapter (record request { model = v.model }))
                      (sym at)
                    ∙ sym is_call
                    ∙ returns,
              )
        ]
