-- ===== src/Executor/Fallback.antt =====
-- retry.py: a run that falls back from failing targets to a healthy one.
use switchyard_llm.Prelude.{
  ℕ, ◌+◌, ◌≤◌, ◌≡◌, ◌≢◌, refl, sym, ap, ◌∙◌, ◌⊎◌, inl, inr, String, string_eq, true, List, [], ◌∷◌,
  ◌++◌, some, Dict, lookup, arith, All,
}
use switchyard_llm.Schemas.{ChatCompletionRequest, Target}
use switchyard_llm.Executor.{returned, served, Env, Settings, World, Shared, run}
use switchyard_llm.Executor.Trace.{retryable, conclude}
use switchyard_llm.Executor.Healthy.{IsClosed, healthy_target_reached}
use switchyard_llm.Executor.Ending.{run-Ended}

module _ {Adapter : Type 0} {A : Type 0} (env : Env Adapter A) (s : Settings) where
  -- All calls of a target end in a retryable outcome.
  abbrev pub Fails : Dict String Adapter → Target → Type 0
  Fails registry u =
      (n : ℕ) (a : Adapter) (x : ChatCompletionRequest)
      → lookup u.provider registry ≡ some a
      → retryable (env.call n a x) ≡ true

  route-Fails :
      (registry : Dict String Adapter) (t : Target) (pre : List Target)
      → All (Fails registry) pre
      → All (λ u. (u ≡ t) ⊎ Fails registry u) (pre ++ t ∷ [])
  route-Fails registry t [] a = (inl refl, tt)
  route-Fails registry t (u ∷ pre) (f, a) = (inr f, route-Fails registry t pre a)

  -- Suppose that the last target's provider is configured, answers every call, and has a closed
  -- breaker that the other requests keep closed, that no target before it has the same provider, that
  -- every call of those fails in a way that is retried, and that the deadline is not passed. Then the
  -- run is served by the last target, with its own adapter's answer to a request for its model.
  pub fallback_served :
      (pre : List Target) (t : Target) (adapter : Adapter) (value : ℕ → ChatCompletionRequest → A)
      (registry : Dict String Adapter) (request : ChatCompletionRequest) (w : World A)
      → ((n : ℕ) (x : Shared) → IsClosed t.provider x → IsClosed t.provider (env.others n x))
      → ((n : ℕ) → env.now n ≤ env.now w.tick + s.deadline)
      → All (λ u. u.provider ≢ t.provider) pre
      → All (Fails registry) pre
      → lookup t.provider registry ≡ some adapter
      → ((n : ℕ) (x : ChatCompletionRequest) → env.call n adapter x ≡ returned (value n x))
      → IsClosed t.provider w.shared
      → (n : ℕ) × ((run env s (pre ++ t ∷ []) registry request w).0
          ≡ served (value n (record request { model = t.model })) t)
  fallback_served pre t adapter value registry request w kept in_time others failing e up c =
      let alive =
        healthy_target_reached env s pre [] t adapter value registry request w kept in_time others e
          up c in
      elim (run-Ended env s registry request (λ u. (u ≡ t) ⊎ Fails registry u) (pre ++ t ∷ []) w
        (route-Fails registry t pre failing)) [
          | inl over ↦ absurd (ground (arith, alive, over))
          | inr (u, o, which, (a, n, found, is_it), final, r) ↦ elim which [
            | inr fails ↦ absurd (
                ground (
                  arith,
                  final,
                  ap (retryable {A = A}) is_it,
                  fails n a (record request { model = u.model }) found,
                ))
            | inl same_target ↦
                let found' : some a ≡ some adapter =
                  sym found ∙ ap (λ (v : Target). lookup v.provider registry) same_target ∙ e in
                let own : a ≡ adapter = ground (arith, found') in
                let answer : o ≡ returned (value n (record request { model = t.model })) =
                  is_it
                  ∙ ap (λ (v : Target). env.call n a (record request { model = v.model }))
                      same_target
                  ∙ ap (λ (b : Adapter). env.call n b (record request { model = t.model })) own
                  ∙ up n (record request { model = t.model }) in
                (
                  n,
                  r
                      ∙ ap (conclude u) answer
                      ∙ ap (λ (v : Target). served (value n (record request { model = t.model })) v)
                          same_target,
                )
          ]
        ]
