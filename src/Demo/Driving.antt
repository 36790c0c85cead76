-- ===== src/Demo/Driving.antt =====
-- demo_resilience.py: what a request of the demo does, and what `_drive` counts.
use switchyard_llm.Prelude.{
  ℕ, zero, suc, ◌+◌, ◌*◌, ◌≤◌, ◌≡◌, ◌≢◌, refl, sym, ◌∙◌, ap, subst, String, string_eq, [], ◌∷◌,
  none, Dict, lookup, insert, arith,
}
use switchyard_llm.Adapter.{Codec, upstream_body}
use switchyard_llm.Breaker.{closed, CircuitBreaker, record_success}
use switchyard_llm.Breaker.Registry.{breaker_of}
use switchyard_llm.Cache.{Faiss}
use switchyard_llm.Demo.{demo_request, label, count_up, with_server, drive}
use switchyard_llm.Demo.Outage.{Serving, record_success-Serving, Failing, failed_turn-Failing}
use switchyard_llm.Demo.Phases.{
  Speaks, demo_target, adapter_of, demo_registry, demo_resolves, demo_app, a_answers, a_is_down,
  b_answers,
}
use switchyard_llm.Executor.{Shared, nanoseconds}
use switchyard_llm.Executor.Pair.{primary_serves, fallback_serves}
use switchyard_llm.Gateway.{State, Outside, Reply, chat_completions, world_of}
use switchyard_llm.Gateway.Plain.{chat_completions-Served}
use switchyard_llm.Limiter.{Redis}
use switchyard_llm.MockUpstream.{ServerState, initial, control_a, down_body}
use switchyard_llm.Providers.{AdapterConfig, Text}
use switchyard_llm.Schemas.{Json}
use switchyard_llm.Signals.{PriceBook}
use switchyard_llm.Startup.{executor_defaults, breaker_defaults}
use switchyard_llm.Tenancy.{enabled}

-- The counter of `n` requests that one provider served.
abbrev pub all_by : String → ℕ → Dict String ℕ
all_by provider zero = []
all_by provider (suc n) = (provider, suc n) ∷ []

count_up-all_by : (p : String) (n : ℕ) → count_up p (all_by p n) ≡ all_by p (suc n)
unfolding count_up insert lookup
count_up-all_by p zero = refl
count_up-all_by p (suc n) = ground (arith, string_eq.beq_iff p p)

a_ne_b : ◌≢◌ {A = String} "mock_a" "mock_b"
a_ne_b e = absurd (ground (arith, string_eq.beq_iff "mock_a" "mock_b", e))

module _ {redis : Redis} {faiss : Faiss} (second one : ℕ) (k : Codec) (encode : Json → Text)
    (http : ℕ → String) (o : Outside redis faiss AdapterConfig) (speaks : Speaks k encode)
    (ninety : faiss.Similarity) (store : redis.Store) (book : PriceBook)
    (kept : (n : ℕ) (x : Shared) → o.env.others n x ≡ x)
    (in_time : (m n : ℕ) → o.env.now n ≤ o.env.now m + 60 * nanoseconds) where
  -- A request to the started gateway, with the mock server in a state.
  abbrev reply_of :
      ServerState → State redis faiss AdapterConfig → Reply × State redis faiss AdapterConfig
  reply_of server s =
      chat_completions (demo_app redis faiss second one ninety store book).0
        (with_server second one k encode http o server) demo_request none s

  abbrev breaker : String → State redis faiss AdapterConfig → CircuitBreaker
  breaker p s = breaker_of p s.shared.breakers

  primary_request :
      (j : ℕ) (s : State redis faiss AdapterConfig)
      → s.cache ≡ none
      → Serving j (breaker "mock_a" s)
      → let r = reply_of initial s in
        (label http r.0 ≡ "mock_a")
        × (r.1.cache ≡ none)
        × Serving (j + 1) (breaker "mock_a" r.1)
        × (breaker "mock_b" r.1 ≡ breaker "mock_b" s)
  unfolding lookup enabled
  primary_request j s off healthy =
      let g = (demo_app redis faiss second one ninety store book).0 in
      let o' = with_server second one k encode http o initial in
      let (n, v, ran, left) =
        primary_serves o'.env executor_defaults demo_registry demo_request kept in_time
          (λ n. speaks.answer_a) (demo_target one "mock_a") (demo_target one "mock_b" ∷ [])
          (adapter_of "/a/v1") (world_of g o' s) refl
          (λ n.
            a_answers second one k encode http o speaks
              (record demo_request { model = "mock-model" }) refl)
          healthy.is_closed in
      let (reply, shared, cache) =
        chat_completions-Served g o' demo_request none s
          (demo_target one "mock_a" ∷ demo_target one "mock_b" ∷ []) speaks.answer_a
          (demo_target one "mock_a") v refl refl off (demo_resolves one _ _ _) ran in
      (
        ap (label http) reply,
        cache,
        subst (Serving (j + 1))
            (sym (ap (λ (x : Shared). breaker_of "mock_a" x.breakers) shared ∙ left "mock_a"))
            (record_success-Serving j (breaker "mock_a" s) healthy),
        ap (λ (x : Shared). breaker_of "mock_b" x.breakers) shared ∙ left "mock_b",
      )

  success_stays_closed :
      (b : CircuitBreaker) → b.state ≡ closed → (record_success breaker_defaults b).state ≡ closed
  unfolding record_success
  success_stays_closed b h = ground (arith, h)

  fallback_request :
      (n j : ℕ) (s : State redis faiss AdapterConfig)
      → suc j ≤ n
      → s.cache ≡ none
      → Failing n j (breaker "mock_a" s)
      → (breaker "mock_b" s).state ≡ closed
      → let r = reply_of (control_a "fail" initial).0 s in
        (label http r.0 ≡ "mock_b")
        × (r.1.cache ≡ none)
        × Failing n (suc j) (breaker "mock_a" r.1)
        × ((breaker "mock_b" r.1).state ≡ closed)
  unfolding lookup enabled
  fallback_request n j s h off down up =
      let g = (demo_app redis faiss second one ninety store book).0 in
      let server = (control_a "fail" initial).0 in
      let o' = with_server second one k encode http o server in
      let mock_request = record demo_request { model = "mock-model" } in
      let (m, v, now, time, ran, left_a, left_b) =
        fallback_serves o'.env executor_defaults demo_registry demo_request kept in_time
          (λ m. speaks.answer_b) (demo_target one "mock_a") (demo_target one "mock_b")
          (adapter_of "/a/v1") (adapter_of "/b/v1") (λ m. upstream_body k (encode down_body))
          (world_of g o' s) a_ne_b refl refl
          (λ m. a_is_down second one k encode http o speaks mock_request refl)
          (λ m. b_answers second one k encode http o speaks mock_request refl server) up in
      let (reply, shared, cache) =
        chat_completions-Served g o' demo_request none s
          (demo_target one "mock_a" ∷ demo_target one "mock_b" ∷ []) speaks.answer_b
          (demo_target one "mock_b") v refl refl off (demo_resolves one _ _ _) ran in
      (
        ap (label http) reply,
        cache,
        subst (Failing n (suc j))
            (sym (ap (λ (x : Shared). breaker_of "mock_a" x.breakers) shared ∙ left_a))
            (failed_turn-Failing n j now time (breaker "mock_a" s) h down),
        ap (λ (x : Shared). (breaker_of "mock_b" x.breakers).state) shared
            ∙ ap (λ (b : CircuitBreaker). b.state) left_b
            ∙ success_stays_closed (breaker "mock_b" s) up,
      )

  abbrev driven :
      ServerState
      → ℕ
      → Dict String ℕ
      → State redis faiss AdapterConfig
      → Dict String ℕ × State redis faiss AdapterConfig
  driven = drive second one k encode http o (demo_app redis faiss second one ninety store book).0

  -- One more request of a provider that has served all so far.
  driven_once :
      (server : ServerState) (n j : ℕ) (p : String) (s : State redis faiss AdapterConfig)
      → label http (reply_of server s).0 ≡ p
      → driven server (suc n) (all_by p j) s
        ≡ driven server n (all_by p (suc j)) (reply_of server s).1
  unfolding drive
  driven_once server n j p s by_p =
      ap (λ (c : Dict String ℕ). driven server n c (reply_of server s).1)
        (ap (λ (l : String). count_up l (all_by p j)) by_p ∙ count_up-all_by p j)

  -- `m` requests have been driven, all served by `mock_a`.
  abbrev Up : ℕ → Dict String ℕ × State redis faiss AdapterConfig → Type 0
  Up m r =
      (r.0 ≡ all_by "mock_a" m)
      × (r.1.cache ≡ none)
      × Serving m (breaker "mock_a" r.1)
      × ((breaker "mock_b" r.1).state ≡ closed)

  -- `_drive` while backend `a` is up: `mock_a` serves everything.
  pub drive-Up :
      (n j m : ℕ) (s : State redis faiss AdapterConfig)
      → j + n ≡ m
      → s.cache ≡ none
      → Serving j (breaker "mock_a" s)
      → (breaker "mock_b" s).state ≡ closed
      → Up m (driven initial n (all_by "mock_a" j) s)
  unfolding drive
  drive-Up zero j m s e off healthy up =
      let same : j ≡ m = omega arith in
      subst (λ (i : ℕ). Up i (all_by "mock_a" j, s)) same (refl, off, healthy, up)
  drive-Up (suc n) j m s e off healthy up =
      let (by_a, off', healthy', same) = primary_request j s off healthy in
      let next : j + 1 ≡ suc j = omega arith in
      subst (Up m) (sym (driven_once initial n j "mock_a" s by_a)) (
        drive-Up n (suc j) m (reply_of initial s).1 (omega arith) off'
          (subst (λ (i : ℕ). Serving i (breaker "mock_a" (reply_of initial s).1)) next healthy')
          (ap (λ (b : CircuitBreaker). b.state) same ∙ up))

  abbrev Down : ℕ → Dict String ℕ × State redis faiss AdapterConfig → Type 0
  Down n r = (r.0 ≡ all_by "mock_b" n) × Failing n n (breaker "mock_a" r.1)

  -- `_drive` while backend `a` is down: `mock_b` serves everything, and `mock_a`'s breaker sees a
  -- failing turn for each request.
  pub drive-Down :
      (i n j : ℕ) (s : State redis faiss AdapterConfig)
      → j + i ≡ n
      → s.cache ≡ none
      → Failing n j (breaker "mock_a" s)
      → (breaker "mock_b" s).state ≡ closed
      → Down n (driven (control_a "fail" initial).0 i (all_by "mock_b" j) s)
  unfolding drive
  drive-Down zero n j s e off down up =
      let same : j ≡ n = omega arith in
      (ap (all_by "mock_b") same, subst (λ (i : ℕ). Failing n i (breaker "mock_a" s)) same down)
  drive-Down (suc i) n j s e off down up =
      let server = (control_a "fail" initial).0 in
      let (by_b, off', down', up') = fallback_request n j s (omega arith) off down up in
      subst (Down n) (sym (driven_once server i j "mock_b" s by_b))
        (drive-Down i n (suc j) (reply_of server s).1 (omega arith) off' down' up')
