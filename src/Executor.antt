-- ===== src/Executor.antt =====
-- gateway/resilience/retry.py: `ResilientExecutor`. `execute` and `execute_stream` are the same loop
-- over the targets with another upstream call, and so they are here.
-- Times are nanoseconds. Everything outside the process is the record `Env`, indexed by a count of
-- the interactions so far: the clock, the random draws, what an adapter's call comes to, and what
-- the other requests do to the shared breakers and signals while this one awaits. Log lines and the
-- texts of messages are left out.
pub mod Trace
pub mod Calls
pub mod Answers
pub mod Healthy
pub mod Leak
pub mod Backoff
pub mod Rounds
pub mod Pair
pub mod Ending
pub mod Fallback
use switchyard_llm.Prelude.{
  string_eq, ℕ, suc, ◌+◌, ◌-◌, ◌*◌, ◌^◌, String, Bool, true, false, ◌||◌, List, [], ◌∷◌, ◌++◌,
  Option, none, some, Dict, lookup, min, ltb, leb, ◌==◌, nat_eq, if◌then◌else◌,
}
use switchyard_llm.Breaker.{Config, CircuitBreaker, allow, record_success, record_failure}
use switchyard_llm.Breaker.Registry.{Breakers, get, put}
use switchyard_llm.Schemas
use switchyard_llm.Schemas.{Json, ChatCompletionRequest, Target}
use switchyard_llm.Signals.{RoutingSignals, Fraction, record_latency}

-- What awaiting one upstream call comes to: a value, an `UpstreamError`, an httpx timeout, another
-- httpx transport error, or any other exception (a body that does not parse, a cancelled task).
pub data Outcome {ℓ} (A : Type ℓ) : Type ℓ where
  returned : A → Outcome A
  upstream : ℕ → Json → Outcome A
  timed_out transport crashed : Outcome A

-- `last_error` of the loop.
pub data LastError : Type 0 where
  upstream_error : ℕ → Json → LastError
  circuit_open : String → LastError
  timeout_error transport_error : LastError

-- How the executor ends: it returns, or it raises an `UpstreamError`, another exception of the
-- adapter, or `AllTargetsFailed`.
pub data Result {ℓ} (A : Type ℓ) : Type ℓ where
  served : A → Target → Result A
  raised : ℕ → Json → Result A
  escaped : Result A
  all_failed : Option LastError → Result A

-- The reasons of `record_provider_failure`.
pub data Reason : Type 0 where
  unavailable breaker_open timeout transport_failure : Reason
  upstream_status : ℕ → Reason

-- What the requests of the process share.
pub record Shared : Type 0 where
  pub breakers : Breakers
  pub signals : Option RoutingSignals

pub record Env {ℓ} (Adapter : Type 0) (A : Type ℓ) : Type ℓ where
  pub now : ℕ → ℕ
  pub uniform : ℕ → ℕ → ℕ
  pub call : ℕ → Adapter → ChatCompletionRequest → Outcome A
  pub others : ℕ → Shared → Shared

pub record Settings : Type 0 where
  pub breaker : Config
  pub base_delay : ℕ
  pub max_delay : ℕ
  pub deadline : ℕ

-- The state of the process as one request sees it. `failures` are the provider failures that this
-- request counts, `calls` its upstream calls and `slept` its waits, in order.
pub record World {ℓ} (A : Type ℓ) : Type ℓ where
  pub tick : ℕ
  pub shared : Shared
  pub failures : List (String × Reason)
  pub calls : List (Target × Outcome A)
  pub slept : List ℕ

-- `last_error` and `attempts`.
pub record Locals : Type 0 where
  pub last_error : Option LastError
  pub attempts : ℕ

-- One round of the loop: `continue`, `break`, or the end of the function.
pub data Turn {ℓ} (A : Type ℓ) : Type ℓ where
  again : Locals → World A → Turn A
  stop : Locals → World A → Turn A
  done : Result A → World A → Turn A

unfoldable pub is_retryable_status : ℕ → Bool
is_retryable_status status_code = (status_code == 429) || leb 500 status_code

abbrev pub nanoseconds : ℕ
nanoseconds = 1000000000

-- `_record_latency`
unfoldable pub observe : String → ℕ → Shared → Shared
observe provider elapsed s = elim s.signals [
  | none ↦ s
  | some r ↦ record s {
    signals = some (record_latency provider (record { num = elapsed; den = nanoseconds }) r);
  }
]

-- The body of the 503 for a provider that is not configured.
abbrev pub unavailable_body : Json
unavailable_body = Json.object (
    Schemas.field "error"
      (Json.object (Schemas.field "type" (Json.text "provider_unavailable") Schemas.end))
      Schemas.end)

module _ {ℓ} {A : Type ℓ} where
  abbrev pub note_failure : String → Reason → World A → World A
  note_failure provider reason w = record w { failures = w.failures ++ (provider, reason) ∷ [] }

  abbrev pub set_breaker : String → CircuitBreaker → World A → World A
  set_breaker provider b w = record w {
    shared = record w.shared { breakers = put provider b w.shared.breakers };
  }

  -- The method calls on `self.breakers.get(provider)`.
  unfoldable pub report_success : Config → String → World A → World A
  report_success c provider w =
      set_breaker provider (record_success c (get provider w.shared.breakers).1) w

  unfoldable pub report_failure : Config → String → ℕ → World A → World A
  report_failure c provider t w =
      set_breaker provider (record_failure c t (get provider w.shared.breakers).1) w

module _ {ℓ} {Adapter : Type 0} {A : Type ℓ} (env : Env Adapter A) (s : Settings) where
  -- A reading of the clock.
  abbrev pub clock : World A → ℕ
  clock w = env.now w.tick

  abbrev pub ticked : World A → World A
  ticked w = record w { tick = w.tick + 1 }

  -- `_backoff`: full jitter under an exponential ceiling.
  unfoldable pub ceiling : ℕ → ℕ
  ceiling attempt = min (s.base_delay * 2 ^ (attempt - 1)) s.max_delay

  -- `if attempts > 0: …`
  unfoldable pub pause : ℕ → World A → World A
  unfolding ceiling
  pause attempts w =
      let delay = env.uniform w.tick (ceiling attempts) in
      if ltb 0 attempts
      then if ltb 0 delay
        then record (ticked w) {
          shared = env.others w.tick w.shared;
          slept = w.slept ++ delay ∷ [];
        }
        else ticked w
      else w

  -- The `except` and `else` branches after the upstream call.
  unfoldable pub settle : Target → ℕ → Locals → Outcome A → World A → Turn A
  unfolding report_success report_failure observe is_retryable_status
  settle target attempt_start l (returned a) w =
      let w1 = report_success s.breaker target.provider w in
      done (served a target) (record (ticked w1) {
        shared = observe target.provider (clock w1 - attempt_start) w1.shared;
      })
  settle target attempt_start l (upstream status body) w =
      if is_retryable_status status
      then again (record l { last_error = some (upstream_error status body) })
          (note_failure target.provider (upstream_status status)
            (ticked (report_failure s.breaker target.provider (clock w) w)))
      else done (raised status body) (report_success s.breaker target.provider w)
  settle target attempt_start l timed_out w =
      again (record l { last_error = some timeout_error })
        (note_failure target.provider timeout
          (ticked (report_failure s.breaker target.provider (clock w) w)))
  settle target attempt_start l transport w =
      again (record l { last_error = some transport_error })
        (note_failure target.provider transport_failure
          (ticked (report_failure s.breaker target.provider (clock w) w)))
  settle target attempt_start l crashed w = done escaped w

  -- The state after the upstream call, which the other requests have used meanwhile.
  abbrev pub awaited : Target → Outcome A → World A → World A
  awaited target outcome w = record (ticked w) {
    shared = env.others w.tick w.shared;
    calls = w.calls ++ (target, outcome) ∷ [];
  }

  -- The upstream call, with the wait before it.
  unfoldable pub attempt : ChatCompletionRequest → Target → Adapter → Locals → World A → Turn A
  unfolding pause settle
  attempt request target adapter l w =
      let w1 = pause l.attempts w in
      let w2 = ticked w1 in
      let outcome = env.call w2.tick adapter (record request { model = target.model }) in
      settle target (clock w1) (record l { attempts = l.attempts + 1 }) outcome
        (awaited target outcome w2)

  -- One round of `for target in targets`.
  unfoldable pub visit :
      Dict String Adapter → ChatCompletionRequest → ℕ → Target → Locals → World A → Turn A
  unfolding attempt
  visit registry request start target l w0 =
      let w = ticked w0 in
      if ltb (start + s.deadline) (clock w0)
      then stop l w
      else elim (lookup target.provider registry) [
        | none ↦
            again (record l { last_error = some (upstream_error 503 unavailable_body) })
              (note_failure target.provider unavailable w)
        | some adapter ↦
            let (b, granted) =
              allow s.breaker (clock w) (get target.provider w.shared.breakers).1 in
            let w' = ticked (set_breaker target.provider b w) in
            if granted
            then attempt request target adapter l w'
            else again (record l { last_error = some (circuit_open target.provider) })
                (note_failure target.provider breaker_open w')
      ]

  abbrev pub proceed : Turn A → (Locals → World A → Result A × World A) → Result A × World A
  proceed (again l w) rest = rest l w
  proceed (stop l w) rest = (all_failed l.last_error, w)
  proceed (done r w) rest = (r, w)

  unfoldable pub loop :
      Dict String Adapter
      → ChatCompletionRequest
      → ℕ
      → List Target
      → Locals
      → World A
      → Result A × World A
  loop registry request start [] l w = (all_failed l.last_error, w)
  loop registry request start (target ∷ targets) l w =
      proceed (visit registry request start target l w) (loop registry request start targets)

  abbrev pub first_locals : Locals
  first_locals = record { last_error = none; attempts = 0 }

  -- The whole method: `start` is the first reading of the clock.
  unfoldable pub run :
      List Target → Dict String Adapter → ChatCompletionRequest → World A → Result A × World A
  unfolding loop
  run targets registry request w = loop registry request (clock w) targets first_locals (ticked w)
