-- ===== src/Gateway/Attempts.antt =====
-- main.py: the requests that the end of the pipeline records.
use switchyard_llm.Prelude.{
  ◌-◌, String, ℕ, ◌≡◌, refl, sym, ap, ◌∙◌, subst, Bool, true, false, List, [], ◌∷◌, ◌++◌,
  if◌then◌else◌, Option, none, some, arith, Option-cases, inl, inr,
}
use switchyard_llm.Prelude.Int.{ℤ}
use switchyard_llm.Schemas.{ChatCompletionRequest, ChatCompletionResponse, Target, Usage}
use switchyard_llm.Tenancy.{Tenant}
use switchyard_llm.Limiter.{Redis}
use switchyard_llm.Cache.{Faiss}
use switchyard_llm.Executor.{
  Result, served, raised, escaped, all_failed, LastError, upstream_error, circuit_open,
  timeout_error, transport_error,
}
use switchyard_llm.Gateway.{
  AppConfig, Outside, State, Metric, Reply, error_reply, crashed, forwarded, from_cache, answered,
  streaming, failed, Outcome, account, write_cache, refund_tokens, ErrorKind, invalid_api_key,
  invalid_request_error, rate_limit_exceeded, last_reply, recorded, opened_reply, completed_reply,
  Opened,
}
use switchyard_llm.Gateway.Refusals.{is_crash}

abbrev pub is_request : Metric → Bool
is_request (Metric.request_metric alias provider outcome stream) = true
is_request (Metric.error_metric kind) = false
is_request (Metric.cache_metric status) = false
is_request (Metric.latency_metric provider stream took) = false
is_request (Metric.usage_metric tenant provider prompt completion price) = false

-- The requests that are recorded.
abbrev pub requests_of : List Metric → List Metric
requests_of [] = []
requests_of (m ∷ ms) = let rest = requests_of ms in if is_request m then m ∷ rest else rest

-- The request that a reply stands for.
abbrev pub refused_attempt : ChatCompletionRequest → ErrorKind → List Metric
refused_attempt q invalid_api_key = []
refused_attempt q invalid_request_error = []
refused_attempt q rate_limit_exceeded =
    Metric.request_metric q.model none Outcome.throttled q.stream ∷ []
refused_attempt q _ = Metric.request_metric q.model none Outcome.error q.stream ∷ []

abbrev pub attempt_of : ChatCompletionRequest → Reply → List Metric
attempt_of q (error_reply status kind retry) = refused_attempt q kind
attempt_of q (forwarded status body) =
    Metric.request_metric q.model none Outcome.error q.stream ∷ []
attempt_of q (from_cache response) = Metric.request_metric q.model none Outcome.success false ∷ []
attempt_of q (answered response target) =
    Metric.request_metric q.model (some target.provider) Outcome.success false ∷ []
attempt_of q (streaming opened target) =
    Metric.request_metric q.model (some target.provider) Outcome.success true ∷ []
attempt_of q crashed = []

pub requests_of-kept :
    (ms : List Metric) (m : Metric)
    → is_request m ≡ true
    → requests_of (ms ++ m ∷ []) ≡ requests_of ms ++ m ∷ []
requests_of-kept [] m h = rw h refl
requests_of-kept (n ∷ ms) m h = ground (arith, requests_of-kept ms m h)

pub requests_of-skipped :
    (ms : List Metric) (m : Metric)
    → is_request m ≡ false
    → requests_of (ms ++ m ∷ []) ≡ requests_of ms
requests_of-skipped [] m h = rw h refl
requests_of-skipped (n ∷ ms) m h = ground (arith, requests_of-skipped ms m h)

pub after_error :
    (ms : List Metric) (kind : ErrorKind) (m : Metric)
    → is_request m ≡ true
    → requests_of ((ms ++ Metric.error_metric kind ∷ []) ++ m ∷ []) ≡ requests_of ms ++ m ∷ []
after_error ms kind m h =
    requests_of-kept (ms ++ Metric.error_metric kind ∷ []) m h
    ∙ ap (λ (l : List Metric). l ++ m ∷ []) (requests_of-skipped ms (Metric.error_metric kind) refl)

after_latency :
    (ms : List Metric) (provider : String) (stream : Bool) (took : ℕ) (m : Metric)
    → is_request m ≡ true
    → requests_of ((ms ++ Metric.latency_metric provider stream took ∷ []) ++ m ∷ [])
      ≡ requests_of ms ++ m ∷ []
after_latency ms provider stream took m h =
    requests_of-kept (ms ++ Metric.latency_metric provider stream took ∷ []) m h
    ∙ ap (λ (l : List Metric). l ++ m ∷ [])
        (requests_of-skipped ms (Metric.latency_metric provider stream took) refl)

module _ {redis : Redis} {faiss : Faiss} {Adapter : Type 0} (g : AppConfig redis faiss Adapter)
    (o : Outside redis faiss Adapter) (request : ChatCompletionRequest) where
  -- Unless the handler raises, what it adds to the recorded requests is what its reply stands for.
  abbrev pub Attempted : State redis faiss Adapter → Reply × State redis faiss Adapter → Type 0
  Attempted s (reply, s') =
      is_crash reply ≡ false
      → requests_of s'.metrics ≡ requests_of s.metrics ++ attempt_of request reply

  failed-Attempted :
      (tenant : Option Tenant) (est : ℤ) (kind : ErrorKind) (reply : Reply)
      (s : State redis faiss Adapter)
      → attempt_of request reply
        ≡ Metric.request_metric request.model none Outcome.error request.stream ∷ []
      → Attempted s (failed g o request tenant est kind reply s)
  unfolding failed refund_tokens
  failed-Attempted none est kind reply s e c =
      after_error s.metrics kind
        (Metric.request_metric request.model none Outcome.error request.stream) refl
      ∙ ap (λ (l : List Metric). requests_of s.metrics ++ l) (sym e)
  failed-Attempted (some t) est kind reply s e c =
      after_error s.metrics kind
        (Metric.request_metric request.model none Outcome.error request.stream) refl
      ∙ ap (λ (l : List Metric). requests_of s.metrics ++ l) (sym e)

  last_reply-attempt :
      (last : Option LastError)
      → attempt_of request (last_reply g o last)
        ≡ Metric.request_metric request.model none Outcome.error request.stream ∷ []
  last_reply-attempt none = refl
  last_reply-attempt (some (upstream_error status body)) = refl
  last_reply-attempt (some (circuit_open provider)) = refl
  last_reply-attempt (some timeout_error) = refl
  last_reply-attempt (some transport_error) = refl

  pub opened_reply-Attempted :
      (tenant : Option Tenant) (est : ℤ) (started : ℕ) (s : State redis faiss Adapter)
      (result : Result Opened)
      → Attempted s (opened_reply g o request tenant est started s result)
  unfolding opened_reply
  opened_reply-Attempted tenant est started s (served opened target) c =
      after_latency s.metrics target.provider true (o.perf_counter s.tick - started)
        (Metric.request_metric request.model (some target.provider) Outcome.success true) refl
  opened_reply-Attempted tenant est started s (raised status body) c =
      failed-Attempted tenant est (ErrorKind.upstream status) (forwarded status body) s refl c
  opened_reply-Attempted tenant est started s escaped c = absurd (ground (arith, c))
  opened_reply-Attempted tenant est started s (all_failed last) c =
      failed-Attempted tenant est ErrorKind.all_targets_failed (last_reply g o last) s
        (last_reply-attempt last) c

  account_requests :
      (tenant : Option Tenant) (est : ℤ) (target : Target) (usage : Option Usage)
      (s : State redis faiss Adapter)
      → requests_of (account g o tenant est target usage s).metrics ≡ requests_of s.metrics
  unfolding account
  account_requests tenant est target none s = refl
  account_requests none est target (some usage) s = requests_of-skipped s.metrics _ refl
  account_requests (some t) est target (some usage) s = requests_of-skipped s.metrics _ refl

  write_cache_metrics :
      (tenant : Option Tenant) (response : ChatCompletionResponse)
      (s s' : State redis faiss Adapter)
      → write_cache g o request tenant response s ≡ some s'
      → s'.metrics ≡ s.metrics
  unfolding write_cache
  write_cache_metrics tenant response s s' e = ground (arith, e)

  pub completed_reply-Attempted :
      (tenant : Option Tenant) (est : ℤ) (started : ℕ) (s : State redis faiss Adapter)
      (result : Result ChatCompletionResponse)
      → Attempted s (completed_reply g o request tenant est started s result)
  unfolding completed_reply
  completed_reply-Attempted tenant est started s (served response target) c =
      let m = Metric.request_metric request.model (some target.provider) Outcome.success false in
      let took = o.perf_counter s.tick - started in
      let s1 : State redis faiss Adapter =
        recorded g o m (recorded g o (Metric.latency_metric target.provider false took) s) in
      let s2 = account g o tenant est target response.usage s1 in
      let counted =
        account_requests tenant est target response.usage s1
        ∙ after_latency s.metrics target.provider false took m refl in
      elim (Option-cases (write_cache g o request tenant response s2)) [
        | inl bad ↦ absurd (ground (arith, c, bad))
        | inr (s3, written) ↦
            let opened : completed_reply g o request tenant est started s (served response target)
                ≡ (answered response target, s3) =
              ground (arith, written) in
            subst (Attempted s) (sym opened)
              (λ d. ap requests_of (write_cache_metrics tenant response s2 s3 written) ∙ counted) c
      ]
  completed_reply-Attempted tenant est started s (raised status body) c =
      failed-Attempted tenant est (ErrorKind.upstream status) (forwarded status body) s refl c
  completed_reply-Attempted tenant est started s escaped c = absurd (ground (arith, c))
  completed_reply-Attempted tenant est started s (all_failed last) c =
      failed-Attempted tenant est ErrorKind.all_targets_failed (last_reply g o last) s
        (last_reply-attempt last) c
