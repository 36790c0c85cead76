-- ===== src/Executor/Leak.antt =====
-- retry.py and circuit_breaker.py: what an exception that `execute` does not catch leaves behind.
use switchyard_llm.Prelude.{
  ℕ, ◌+◌, ◌≤◌, ◌≡◌, refl, String, string_eq, true, false, List, ◌∷◌, some, Dict, lookup, map, arith,
  ltb, All,
}
use switchyard_llm.Breaker.{Config, CircuitBreaker, opened, half_open, allow, asks, answers}
use switchyard_llm.Breaker.Probes.{probe_slots_leak}
use switchyard_llm.Breaker.Registry.{breaker_of, breaker_of-put, put}
use switchyard_llm.Schemas.{ChatCompletionRequest, Target}
use switchyard_llm.Executor.{
  crashed, escaped, Shared, Env, Settings, World, settle, attempt, pause, visit, loop, run,
}

probe_granted :
    (c : Config) (now : ℕ) (b : CircuitBreaker)
    → b.state ≡ opened
    → c.half_open_max ≡ 1
    → b.opened_at + c.reset_timeout ≤ now
    → ((allow c now b).1 ≡ true)
      × ((allow c now b).0.state ≡ half_open)
      × ((allow c now b).0.half_open_calls ≡ c.half_open_max)
unfolding allow
probe_granted c now b o one due = ground arith

module _ {ℓ} {Adapter : Type 0} {A : Type ℓ} (env : Env Adapter A) (s : Settings) where
  crashed_run :
      (t : Target) (rest : List Target) (registry : Dict String Adapter)
      (request : ChatCompletionRequest) (w : World A) (adapter : Adapter)
      → ltb (env.now w.tick + s.deadline) (env.now (w.tick + 1)) ≡ false
      → lookup t.provider registry ≡ some adapter
      → (allow s.breaker (env.now (w.tick + 1 + 1)) (breaker_of t.provider w.shared.breakers)).1
        ≡ true
      → ((n : ℕ) (a : Adapter) (x : ChatCompletionRequest) → env.call n a x ≡ crashed)
      → ((n : ℕ) (x : Shared) → env.others n x ≡ x)
      → ((run env s (t ∷ rest) registry request w).0 ≡ escaped)
        × ((run env s (t ∷ rest) registry request w).1.shared.breakers
            ≡ put t.provider
                (allow s.breaker
                  (env.now (w.tick + 1 + 1))
                  (breaker_of t.provider w.shared.breakers)).0
                w.shared.breakers)
  unfolding run loop visit attempt pause settle
  crashed_run t rest registry request w adapter time e granted crash alone =
      rw (time, e, granted, run, crash _ _ _, alone _ _) (refl, refl)

  -- A probe of an open breaker whose upstream call ends in an exception other than `UpstreamError`
  -- and httpx's is never reported to the breaker: with one probe slot and no other requests about,
  -- the run ends with that exception, and from then on the breaker refuses every call, at every
  -- time, though the reset timeout is long over.
  pub crashed_probe_blocks :
      (t : Target) (rest : List Target) (registry : Dict String Adapter)
      (request : ChatCompletionRequest) (w : World A) (adapter : Adapter)
      → env.now (w.tick + 1) ≤ env.now w.tick + s.deadline
      → lookup t.provider registry ≡ some adapter
      → (breaker_of t.provider w.shared.breakers).state ≡ opened
      → s.breaker.half_open_max ≡ 1
      → (breaker_of t.provider w.shared.breakers).opened_at + s.breaker.reset_timeout
        ≤ env.now (w.tick + 1 + 1)
      → ((n : ℕ) (a : Adapter) (x : ChatCompletionRequest) → env.call n a x ≡ crashed)
      → ((n : ℕ) (x : Shared) → env.others n x ≡ x)
      → let (r, v) = run env s (t ∷ rest) registry request w in
        (r ≡ escaped)
        × ((times : List ℕ)
            → All
                (λ a. a ≡ false)
                (answers s.breaker (breaker_of t.provider v.shared.breakers) (map asks times)))
  crashed_probe_blocks t rest registry request w adapter time e o one due crash alone =
      let old = breaker_of t.provider w.shared.breakers in
      let now = env.now (w.tick + 1 + 1) in
      let (granted, half, full) = probe_granted s.breaker now old o one due in
      let (r, left) =
        crashed_run t rest registry request w adapter (ground arith) e granted crash alone in
      let held : breaker_of t.provider
            (put t.provider (allow s.breaker now old).0 w.shared.breakers)
          ≡ (allow s.breaker now old).0 =
        ground (
          arith,
          breaker_of-put t.provider t.provider (allow s.breaker now old).0 w.shared.breakers,
          string_eq.beq_iff t.provider t.provider,
        ) in
      (
        r,
        λ times.
            rw (left, held)
              (probe_slots_leak s.breaker (allow s.breaker now old).0 times half full).1,
      )
