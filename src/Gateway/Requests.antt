-- ===== src/Gateway/Requests.antt =====
-- main.py: every branch of `chat_completions` records the request that its reply stands for.
use mathlib.Core.List.{append-nil}
use switchyard_llm.Prelude.{
  ◌≡◌, refl, sym, ap, ◌∙◌, subst, false, List, [], ◌∷◌, ◌++◌, Option, none, some, arith,
  Option-cases, inl, inr, Bool-cases, ℕ,
}
use switchyard_llm.Prelude.Int.{ℤ, pos}
use switchyard_llm.Schemas.{ChatCompletionRequest, Target}
use switchyard_llm.Tenancy.{
  Tenant, enabled, resolve as find_tenant, extract_bearer, estimate_tokens,
}
use switchyard_llm.Limiter.{Redis, check}
use switchyard_llm.Cache.{Faiss, get}
use switchyard_llm.Cache.Keys.{build_query_text}
use switchyard_llm.Executor.{run}
use switchyard_llm.Routing.{Router, resolve}
use switchyard_llm.Gateway.{
  AppConfig, Outside, State, Metric, CacheStatus, Reply, error_reply, crashed, from_cache, Outcome,
  retry_after_header, refund_tokens, ErrorKind, invalid_api_key, invalid_request_error,
  rate_limit_exceeded, world_of, after, recorded, opened_reply, streaming_completion, complete,
  cache_scope, read_cache, dispatch, admit, route, chat_completions,
}
use switchyard_llm.Gateway.Refusals.{is_crash, Outcomes, Resolved-cases}
use switchyard_llm.Gateway.Attempts.{
  requests_of, refused_attempt, attempt_of, requests_of-kept, requests_of-skipped, after_error,
  Attempted, opened_reply-Attempted, completed_reply-Attempted,
}

module _ {redis : Redis} {faiss : Faiss} {Adapter : Type 0} (g : AppConfig redis faiss Adapter)
    (o : Outside redis faiss Adapter) (request : ChatCompletionRequest) where
  complete-Attempted :
      (targets : List Target) (tenant : Option Tenant) (est : ℤ) (s : State redis faiss Adapter)
      → Attempted g o request s (complete g o request targets tenant est s)
  unfolding complete
  complete-Attempted targets tenant est s =
      let r = run o.env g.settings targets g.registry request (world_of g o s) in
      completed_reply-Attempted g o request tenant est (o.perf_counter s.tick) (after g o r.1 s) r.0

  -- A step that records no request.
  silent :
      (s s' : State redis faiss Adapter) (r : Reply × State redis faiss Adapter)
      → requests_of s'.metrics ≡ requests_of s.metrics
      → Attempted g o request s' r
      → Attempted g o request s r
  silent s s' (reply, s'') e a c = a c ∙ ap (λ (l : List Metric). l ++ attempt_of request reply) e

  streaming_completion-Attempted :
      (targets : List Target) (tenant : Option Tenant) (est : ℤ) (s : State redis faiss Adapter)
      → Attempted g o request s (streaming_completion g o request targets tenant est s)
  unfolding streaming_completion
  streaming_completion-Attempted targets tenant est s =
      let r = run o.stream_env g.settings targets g.registry request (world_of g o s) in
      let s1 : State redis faiss Adapter =
        recorded g o (Metric.cache_metric CacheStatus.bypass) s in
      silent s (after g o r.1 s1)
        (opened_reply g o request tenant est (o.perf_counter s.tick) (after g o r.1 s1) r.0)
        (requests_of-skipped s.metrics (Metric.cache_metric CacheStatus.bypass) refl)
        (opened_reply-Attempted g o request tenant est (o.perf_counter s.tick) (after g o r.1 s1)
          r.0)

  refunded :
      (tenant : Option Tenant) (est : ℤ) (s : State redis faiss Adapter)
      → (refund_tokens g o tenant est s).metrics ≡ s.metrics
  unfolding refund_tokens
  refunded none est s = refl
  refunded (some t) est s = refl

  read_cache-Attempted :
      (targets : List Target) (tenant : Option Tenant) (est : ℤ) (s : State redis faiss Adapter)
      → Attempted g o request s (read_cache g o request targets tenant est s)
  unfolding read_cache
  read_cache-Attempted targets tenant est s = elim (Option-cases s.cache) [
    | inl off ↦
        let opened : read_cache g o request targets tenant est s
            ≡ complete g o request targets tenant est s =
          ground (arith, off) in
        subst (Attempted g o request s) (sym opened) (complete-Attempted targets tenant est s)
    | inr (cache, on) ↦
        let found =
          get o.cache_now (cache_scope g o request tenant)
            (o.embed (build_query_text o.dumps request)) cache in
        let s1 : State redis faiss Adapter = record s { cache = some found.0 } in
        elim (Option-cases found.1) [
          | inl miss ↦
              let missed : State redis faiss Adapter =
                recorded g o (Metric.cache_metric CacheStatus.miss) s1 in
              let opened : read_cache g o request targets tenant est s
                  ≡ complete g o request targets tenant est missed =
                ground (arith, on, miss) in
              subst (Attempted g o request s) (sym opened) (
                silent s missed (complete g o request targets tenant est missed)
                  (requests_of-skipped s.metrics (Metric.cache_metric CacheStatus.miss) refl)
                  (complete-Attempted targets tenant est missed))
          | inr (response, hit) ↦
              let s2 : State redis faiss Adapter =
                recorded g o (Metric.cache_metric CacheStatus.hit)
                  (refund_tokens g o tenant est s1) in
              let m = Metric.request_metric request.model none Outcome.success false in
              let opened : read_cache g o request targets tenant est s
                  ≡ (from_cache response, recorded g o m s2) =
                ground (arith, on, hit) in
              subst (Attempted g o request s) (sym opened) (λ c.
                requests_of-kept s2.metrics m refl
                ∙ ap (λ (l : List Metric). l ++ m ∷ [])
                    (requests_of-skipped (refund_tokens g o tenant est s1).metrics
                        (Metric.cache_metric CacheStatus.hit) refl
                      ∙ ap requests_of (refunded tenant est s1)))
        ]
  ]

  dispatch-Attempted :
      (targets : List Target) (tenant : Option Tenant) (est : ℤ) (s : State redis faiss Adapter)
      → Attempted g o request s (dispatch g o request targets tenant est s)
  dispatch-Attempted targets tenant est s = elim (Bool-cases request.stream) [
    | inl on ↦
        let opened : dispatch g o request targets tenant est s
            ≡ streaming_completion g o request targets tenant est s =
          ground (arith, on) in
        subst (Attempted g o request s) (sym opened)
          (streaming_completion-Attempted targets tenant est s)
    | inr off ↦
        let opened : dispatch g o request targets tenant est s
            ≡ read_cache g o request targets tenant est s =
          ground (arith, off) in
        subst (Attempted g o request s) (sym opened) (read_cache-Attempted targets tenant est s)
  ]

  admit-Attempted :
      (targets : List Target) (tenant : Option Tenant) (s : State redis faiss Adapter)
      → Attempted g o request s (admit g o request targets tenant s)
  unfolding admit
  admit-Attempted targets none s = dispatch-Attempted targets none (pos 0) s
  admit-Attempted targets (some tenant) s =
      let est = estimate_tokens o.encoder o.str request in
      elim (Option-cases (check redis g.window tenant o.limiter_now est s.store)) [
        | inl bad ↦
            let opened : admit g o request targets (some tenant) s ≡ (crashed, s) =
              ground (arith, bad) in
            subst (Attempted g o request s) (sym opened) (λ c. absurd (ground (arith, c)))
        | inr ((rl, store), ran) ↦
            let s1 : State redis faiss Adapter = record s { store = store } in
            elim (Bool-cases rl.allowed) [
              | inl allowed ↦
                  let opened : admit g o request targets (some tenant) s
                      ≡ dispatch g o request targets (some tenant) est s1 =
                    ground (arith, ran, allowed) in
                  subst (Attempted g o request s) (sym opened)
                    (dispatch-Attempted targets (some tenant) est s1)
              | inr refused ↦
                  let m =
                    Metric.request_metric request.model none Outcome.throttled request.stream in
                  let reply : Reply =
                    error_reply 429 rate_limit_exceeded
                      (some (retry_after_header g.second rl.retry_after)) in
                  let s2 : State redis faiss Adapter =
                    recorded g o m (recorded g o (Metric.error_metric rate_limit_exceeded) s1) in
                  let opened : admit g o request targets (some tenant) s ≡ (reply, s2) =
                    ground (arith, ran, refused) in
                  subst (Attempted g o request s) (sym opened)
                    (λ c. after_error s.metrics rate_limit_exceeded m refl)
            ]
      ]

  -- A refusal that records an error and no request.
  unattempted :
      (kind : ErrorKind) (status : ℕ) (s : State redis faiss Adapter)
      → refused_attempt request kind ≡ []
      → Attempted g o request s
          (error_reply status kind none, recorded g o (Metric.error_metric kind) s)
  unattempted kind status s e c =
      requests_of-skipped s.metrics (Metric.error_metric kind) refl
      ∙ sym (append-nil (requests_of s.metrics))
      ∙ ap (λ (l : List Metric). requests_of s.metrics ++ l) (sym e)

  route-Attempted :
      (tenant : Option Tenant) (s : State redis faiss Adapter)
      → Attempted g o request s (route g o request tenant s)
  unfolding route
  route-Attempted tenant s =
      let router : Router = record { aliases = g.aliases; signals = s.shared.signals } in
      elim (Resolved-cases (resolve router o.uniform s.tick request.model)) [
        | Outcomes.unknown gone ↦ rw (gone, route) (unattempted invalid_request_error 400 s refl)
        | Outcomes.stuck bad ↦ rw (bad, route) (λ c. absurd (ground (arith, c)))
        | Outcomes.found targets routed ↦ rw (routed, route) (admit-Attempted targets tenant s)
      ]

  -- Unless its handler raises, a request is recorded at most once, as its reply says: not at all with
  -- a 401 or a 400, as throttled with a 429, as a success with its provider when it is answered or
  -- streamed and with none when the cache answers, and as an error with every other reply.
  pub chat_completions-Attempted :
      (authorization : Option (List ℕ)) (s : State redis faiss Adapter)
      → is_crash (chat_completions g o request authorization s).0 ≡ false
      → requests_of (chat_completions g o request authorization s).1.metrics
        ≡ requests_of s.metrics
          ++ attempt_of request (chat_completions g o request authorization s).0
  unfolding chat_completions
  chat_completions-Attempted authorization s = elim (Bool-cases (enabled g.tenants)) [
    | inr off ↦ rw (off, chat_completions) (route-Attempted none s)
    | inl on ↦ elim (Option-cases (find_tenant g.tenants (extract_bearer authorization))) [
      | inl keyless ↦ rw (on, keyless, chat_completions) (unattempted invalid_api_key 401 s refl)
      | inr (tenant, known) ↦ rw (on, known, chat_completions) (route-Attempted (some tenant) s)
    ]
  ]
