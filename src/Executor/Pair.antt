-- ===== src/Executor/Pair.antt =====
-- retry.py: a run over a primary and a fallback target, as far as the breakers.
use switchyard_llm.Prelude.{
  ℕ, ◌+◌, ◌≤◌, ◌≡◌, ◌≢◌, refl, String, string_eq, false, List, [], ◌∷◌, Dict, lookup, some, ltb,
  arith,
}
use switchyard_llm.Breaker.{closed, record_success}
use switchyard_llm.Breaker.Registry.{breaker_of}
use switchyard_llm.Schemas.{Json, ChatCompletionRequest, Target}
use switchyard_llm.Executor.{
  returned, upstream, served, Shared, Env, Settings, World, loop, first_locals, ticked, run,
}
use switchyard_llm.Executor.Rounds.{failed_turn, Changed, visit_failing, visit_serving}

module _ {ℓ} {Adapter : Type 0} {A : Type ℓ} (env : Env Adapter A) (s : Settings)
    (registry : Dict String Adapter) (request : ChatCompletionRequest)
    (kept : (n : ℕ) (x : Shared) → env.others n x ≡ x)
    (in_time : (m n : ℕ) → env.now n ≤ env.now m + s.deadline) (value : ℕ → A) where
  -- With a closed breaker and an adapter that answers, the first target serves the run, and its
  -- breaker alone changes, by a success.
  pub primary_serves :
      (t : Target) (ts : List Target) (adapter : Adapter) (w : World A)
      → lookup t.provider registry ≡ some adapter
      → ((n : ℕ) → env.call n adapter (record request { model = t.model }) ≡ returned (value n))
      → (breaker_of t.provider w.shared.breakers).state ≡ closed
      → (n : ℕ) × (v : World A) × (run env s (t ∷ ts) registry request w ≡ (served (value n) t, v))
        × Changed t.provider
            (record_success s.breaker (breaker_of t.provider w.shared.breakers))
            w.shared.breakers
            v.shared.breakers
  unfolding run loop
  primary_serves t ts adapter w known up is_closed =
      let (n, v, goes, left) =
        visit_serving env s registry request kept t adapter (env.now w.tick)
          (λ n. ground (arith, in_time w.tick n)) known value (first_locals env s) (ticked env s w)
          up is_closed in
      (n, v, rw goes refl, left)

  -- If the first target's adapter answers 503 and the second's answers, with a closed breaker, then
  -- the second serves the run; the first's breaker sees a failing turn and the second's a success.
  pub fallback_serves :
      (t u : Target) (adapter adapter' : Adapter) (body : ℕ → Json) (w : World A)
      → t.provider ≢ u.provider
      → lookup t.provider registry ≡ some adapter
      → lookup u.provider registry ≡ some adapter'
      → ((n : ℕ) → env.call n adapter (record request { model = t.model }) ≡ upstream 503 (body n))
      → ((n : ℕ) → env.call n adapter' (record request { model = u.model }) ≡ returned (value n))
      → (breaker_of u.provider w.shared.breakers).state ≡ closed
      → (n : ℕ) × (v : World A) × (now : ℕ) × (time : ℕ) × (run env s
            (t ∷ u ∷ [])
            registry
            request
            w
          ≡ (served (value n) u, v))
        × (breaker_of t.provider v.shared.breakers
            ≡ failed_turn s.breaker now time (breaker_of t.provider w.shared.breakers))
        × (breaker_of u.provider v.shared.breakers
            ≡ record_success s.breaker (breaker_of u.provider w.shared.breakers))
  unfolding run loop
  fallback_serves t u adapter adapter' body w other known known' down up is_closed =
      let in_time' : (n : ℕ) → ltb (env.now w.tick + s.deadline) (env.now n) ≡ false =
        λ n. ground (arith, in_time w.tick n) in
      let (l', v', now, time, goes, left) =
        visit_failing env s registry request kept t adapter (env.now w.tick) in_time' known body
          (first_locals env s) (ticked env s w) down in
      let untouched : breaker_of u.provider v'.shared.breakers
          ≡ breaker_of u.provider w.shared.breakers =
        ground (arith, left u.provider, string_eq.beq_iff t.provider u.provider) in
      let own : breaker_of t.provider v'.shared.breakers
          ≡ failed_turn s.breaker now time (breaker_of t.provider w.shared.breakers) =
        ground (arith, left t.provider, string_eq.beq_iff t.provider t.provider) in
      let (n, v, ends, left') =
        visit_serving env s registry request kept u adapter' (env.now w.tick) in_time' known' value
          l' v' up (rw untouched is_closed) in
      (
        n,
        v,
        now,
        time,
        rw (goes, ends) refl,
        ground (arith, left' t.provider, own, string_eq.beq_iff u.provider t.provider),
        ground (arith, left' u.provider, untouched, string_eq.beq_iff u.provider u.provider),
      )
