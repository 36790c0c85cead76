-- ===== src/Gateway/Charge.antt =====
-- main.py: what the end of a request charges, by its reply.
use switchyard_llm.Prelude.{
  ◌-◌, ℕ, ◌≡◌, refl, sym, ◌∙◌, subst, true, false, Option, none, some, arith, Option-cases, inl,
  inr, string_eq,
}
use switchyard_llm.Prelude.Int.{ℤ, pos, ◌-ℤ◌, is_zero_ℤ}
use switchyard_llm.Schemas.{ChatCompletionRequest, ChatCompletionResponse, Target, Usage}
use switchyard_llm.Tenancy.{Tenant}
use switchyard_llm.Limiter.{Redis, reconcile}
use switchyard_llm.Cache.{Faiss}
use switchyard_llm.Executor.{
  Result, served, raised, escaped, all_failed, LastError, upstream_error, circuit_open,
  timeout_error, transport_error,
}
use switchyard_llm.Gateway.{
  opened_reply, completed_reply, AppConfig, Metric, Outcome, Outside, State, Reply, error_reply,
  forwarded, from_cache, answered, streaming, crashed, ErrorKind, refund_tokens, last_reply, failed,
  recorded, account, write_cache, Opened,
}

-- The tokens of a response, or the estimate where no usage is reported.
abbrev pub usage_or : ℤ → Option Usage → ℤ
usage_or estimated none = estimated
usage_or estimated (some u) = pos u.total_tokens

-- What a reply stands for in tokens: nothing for a cached response and for every error, the reported
-- usage for an upstream answer, the estimate as long as a stream runs.
abbrev pub actual : ℤ → Reply → Option ℤ
actual estimated (error_reply status kind retry) = some (pos 0)
actual estimated (forwarded status body) = some (pos 0)
actual estimated (from_cache response) = some (pos 0)
actual estimated (answered response target) = some (usage_or estimated response.usage)
actual estimated (streaming opened target) = some estimated
actual estimated crashed = none

sub_self : (n : ℤ) → is_zero_ℤ (n -ℤ n) ≡ true
unfolding ◌-ℤ◌
sub_self n = ground arith

module _ {redis : Redis} {faiss : Faiss} {Adapter : Type 0} (g : AppConfig redis faiss Adapter)
    (o : Outside redis faiss Adapter) where
  pub reconcile_same :
      (tenant : Tenant) (est : ℤ) (s : redis.Store) → reconcile redis g.window tenant est est s ≡ s
  unfolding reconcile
  reconcile_same tenant est s = rw (sub_self est) refl

  -- The reply's tokens are reconciled.
  abbrev pub Billed :
      Tenant → ℤ → State redis faiss Adapter → Reply × State redis faiss Adapter → Type 0
  Billed tenant est s (reply, s') =
      (a : ℤ) → actual est reply ≡ some a → s'.store ≡ reconcile redis g.window tenant a est s.store

  failed-Billed :
      (request : ChatCompletionRequest) (tenant : Tenant) (est : ℤ) (kind : ErrorKind)
      (reply : Reply) (s : State redis faiss Adapter)
      → actual est reply ≡ some (pos 0)
      → Billed tenant est s (failed g o request (some tenant) est kind reply s)
  unfolding failed refund_tokens
  failed-Billed request tenant est kind reply s free a e =
      let zero_bill : pos 0 ≡ a = ground (arith, free, e) in rw (← zero_bill) refl

  last_reply_free :
      (est : ℤ) (last : Option LastError) → actual est (last_reply g o last) ≡ some (pos 0)
  last_reply_free est none = refl
  last_reply_free est (some (upstream_error status body)) = refl
  last_reply_free est (some (circuit_open provider)) = refl
  last_reply_free est (some timeout_error) = refl
  last_reply_free est (some transport_error) = refl

  account_store :
      (tenant : Tenant) (est : ℤ) (target : Target) (usage : Option Usage)
      (s : State redis faiss Adapter)
      → (account g o (some tenant) est target usage s).store
        ≡ reconcile redis g.window tenant (usage_or est usage) est s.store
  unfolding account
  account_store tenant est target none s = sym (reconcile_same tenant est s.store)
  account_store tenant est target (some usage) s = refl

  write_cache_store :
      (request : ChatCompletionRequest) (tenant : Option Tenant) (response : ChatCompletionResponse)
      (s s' : State redis faiss Adapter)
      → write_cache g o request tenant response s ≡ some s'
      → s'.store ≡ s.store
  unfolding write_cache
  write_cache_store request tenant response s s' e = ground (arith, e)

  pub opened_reply-Billed :
      (request : ChatCompletionRequest) (tenant : Tenant) (est : ℤ) (started : ℕ)
      (s : State redis faiss Adapter) (result : Result Opened)
      → Billed tenant est s (opened_reply g o request (some tenant) est started s result)
  unfolding opened_reply
  opened_reply-Billed request tenant est started s (served opened target) = λ a e.
      let streams : est ≡ a = ground (arith, e) in
      rw (← streams) (sym (reconcile_same tenant est s.store))
  opened_reply-Billed request tenant est started s (raised status body) =
      failed-Billed request tenant est (ErrorKind.upstream status) (forwarded status body) s refl
  opened_reply-Billed request tenant est started s escaped = λ a e. absurd (ground (arith, e))
  opened_reply-Billed request tenant est started s (all_failed last) =
      failed-Billed request tenant est ErrorKind.all_targets_failed (last_reply g o last) s
        (last_reply_free est last)

  pub completed_reply-Billed :
      (request : ChatCompletionRequest) (tenant : Tenant) (est : ℤ) (started : ℕ)
      (s : State redis faiss Adapter) (result : Result ChatCompletionResponse)
      → Billed tenant est s (completed_reply g o request (some tenant) est started s result)
  unfolding completed_reply
  completed_reply-Billed request tenant est started s (served response target) =
      let counted = account g o (some tenant) est target response.usage (
        recorded g o
          (Metric.request_metric request.model (some target.provider) Outcome.success false)
          (recorded g o
            (Metric.latency_metric target.provider false (o.perf_counter s.tick - started)) s)) in
      elim (Option-cases (write_cache g o request (some tenant) response counted)) [
        | inl bad ↦
            let opened : completed_reply g o request (some tenant) est started s
                  (served response target)
                ≡ (crashed, counted) =
              ground (arith, bad) in
            subst (Billed tenant est s) (sym opened) (λ a e. absurd (ground (arith, e)))
        | inr (s', ok) ↦
            let opened : completed_reply g o request (some tenant) est started s
                  (served response target)
                ≡ (answered response target, s') =
              ground (arith, ok) in
            subst (Billed tenant est s) (sym opened) (λ a e.
              let bill : usage_or est response.usage ≡ a = ground (arith, e) in
              rw (← bill) (
                write_cache_store request (some tenant) response counted s' ok
                ∙ account_store tenant est target response.usage _))
      ]
  completed_reply-Billed request tenant est started s (raised status body) =
      failed-Billed request tenant est (ErrorKind.upstream status) (forwarded status body) s refl
  completed_reply-Billed request tenant est started s escaped = λ a e. absurd (ground (arith, e))
  completed_reply-Billed request tenant est started s (all_failed last) =
      failed-Billed request tenant est ErrorKind.all_targets_failed (last_reply g o last) s
        (last_reply_free est last)
