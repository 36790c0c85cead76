-- ===== src/Executor/Healthy.antt =====
-- retry.py: a target that is up is reached.
use switchyard_llm.Prelude.{
  ℕ, ◌+◌, ◌≤◌, arith, ◌≢◌, ◌≡◌, refl, inl, inr, String, string_eq, Bool, true, false, List, [], ◌∷◌,
  ◌++◌, some, Option-cases, Bool-cases, Dict, lookup, arith, ltb, All,
}
use switchyard_llm.Breaker.{closed, allow, CircuitBreaker, Config}
use switchyard_llm.Breaker.Registry.{get, breaker_of, put, breaker_of-put}
use switchyard_llm.Schemas.{ChatCompletionRequest, Target}
use switchyard_llm.Executor.{
  run, awaited, Outcome, returned, upstream, timed_out, transport, crashed, Result, all_failed,
  Shared, Env, Settings, World, Locals, Turn, again, stop, done, is_retryable_status, ticked, clock,
  pause, settle, attempt, visit, proceed, loop,
}

-- The breaker of a provider is closed.
abbrev pub IsClosed : String → Shared → Type 0
IsClosed p s = (breaker_of p s.breakers).state ≡ closed

-- Whether the run ended in `AllTargetsFailed`.
abbrev pub is_exhausted {ℓ} : {A : Type ℓ} → Result A → Bool
is_exhausted (all_failed e) = true
is_exhausted _ = false

put-IsClosed :
    (p q : String) (b : CircuitBreaker) (s : Shared)
    → q ≢ p
    → IsClosed p s
    → IsClosed p (record s { breakers = put q b s.breakers })
put-IsClosed p q b s other c =
    ground (arith, breaker_of-put q p b s.breakers, string_eq.beq_iff q p)

closed_allow :
    (c : Config) (now : ℕ) (b : CircuitBreaker) → b.state ≡ closed → (allow c now b).1 ≡ true
unfolding allow
closed_allow c now b h = ground arith

module _ {ℓ} {Adapter : Type 0} {A : Type ℓ} (env : Env Adapter A) (s : Settings) (p : String)
    (kept : (n : ℕ) (x : Shared) → IsClosed p x → IsClosed p (env.others n x)) where
  abbrev Goes : Turn A → Type 0
  Goes (again l v) = IsClosed p v.shared
  Goes (stop l v) = ⊥
  Goes (done r v) = is_exhausted r ≡ false

  pause-IsClosed : (n : ℕ) (w : World A) → IsClosed p w.shared → IsClosed p (pause env s n w).shared
  unfolding pause
  pause-IsClosed n w c = ground (arith, kept w.tick w.shared c)

  settle-Goes :
      (t : Target) (start : ℕ) (l : Locals) (o : Outcome A) (w : World A)
      → t.provider ≢ p
      → IsClosed p w.shared
      → Goes (settle env s t start l o w)
  unfolding settle
  settle-Goes t start l (returned a) w other c = refl
  settle-Goes t start l (upstream status body) w other c =
      elim (Bool-cases (is_retryable_status status)) [
        | inl e ↦ rw (e, settle) (put-IsClosed p t.provider _ w.shared other c)
        | inr e ↦ rw (e, settle) refl
      ]
  settle-Goes t start l timed_out w other c = put-IsClosed p t.provider _ w.shared other c
  settle-Goes t start l transport w other c = put-IsClosed p t.provider _ w.shared other c
  settle-Goes t start l crashed w other c = refl

  module _ (registry : Dict String Adapter) (request : ChatCompletionRequest) (start : ℕ)
      (in_time : (n : ℕ) → ltb (start + s.deadline) (env.now n) ≡ false) where
    attempt-Goes :
        (t : Target) (adapter : Adapter) (l : Locals) (w : World A)
        → t.provider ≢ p
        → IsClosed p w.shared
        → Goes (attempt env s request t adapter l w)
    unfolding attempt
    attempt-Goes t adapter l w other c =
        let w1 = pause env s l.attempts w in
        let w2 = ticked env s w1 in
        let o = env.call w2.tick adapter (record request { model = t.model }) in
        settle-Goes t (clock env s w1) (record l { attempts = l.attempts + 1 }) o
          (awaited env s t o w2) other (kept w2.tick w2.shared (pause-IsClosed l.attempts w c))

    visit_other :
        (t : Target) (l : Locals) (w : World A)
        → t.provider ≢ p
        → IsClosed p w.shared
        → Goes (visit env s registry request start t l w)
    unfolding visit
    visit_other t l w other c = elim (Option-cases (lookup t.provider registry)) [
      | inl absent ↦ rw (in_time w.tick, absent, visit) c
      | inr (adapter, e) ↦
          let c' =
            put-IsClosed p t.provider
              (allow s.breaker (env.now (w.tick + 1)) (get t.provider w.shared.breakers).1).0
              w.shared other c in
          elim (Bool-cases
            (allow s.breaker (env.now (w.tick + 1)) (get t.provider w.shared.breakers).1).1) [
              | inl granted ↦
                  rw (in_time w.tick, e, granted, visit) (attempt-Goes t adapter l _ other c')
              | inr refused ↦ rw (in_time w.tick, e, refused, visit) c'
            ]
    ]

    visit_up :
        (t : Target) (adapter : Adapter) (value : ℕ → ChatCompletionRequest → A) (l : Locals)
        (w : World A)
        → t.provider ≡ p
        → lookup t.provider registry ≡ some adapter
        → ((n : ℕ) (x : ChatCompletionRequest) → env.call n adapter x ≡ returned (value n x))
        → IsClosed p w.shared
        → (v : World A) × (r : Result A) × (is_exhausted r ≡ false)
          × (visit env s registry request start t l w ≡ done r v)
    unfolding visit attempt settle
    visit_up t adapter value l w same e up c =
        let granted =
          closed_allow s.breaker (env.now (w.tick + 1)) (get t.provider w.shared.breakers).1
            (rw same c) in
        rw (in_time w.tick, e, granted, visit, up _ _, settle) (_, _, refl, refl)

    -- A round that goes on may leave the rest to a loop that does not exhaust the targets.
    go :
        (turn : Turn A) (rest : Locals → World A → Result A × World A)
        → Goes turn
        → ((l : Locals) (v : World A) → IsClosed p v.shared → is_exhausted (rest l v).0 ≡ false)
        → is_exhausted (proceed env s turn rest).0 ≡ false
    go (again l v) rest g ih = ih l v g
    go (stop l v) rest g ih = absurd g
    go (done r v) rest g ih = g

    loop-Goes :
        (pre post : List Target) (t : Target) (adapter : Adapter)
        (value : ℕ → ChatCompletionRequest → A) (l : Locals) (w : World A)
        → All (λ u. u.provider ≢ p) pre
        → t.provider ≡ p
        → lookup t.provider registry ≡ some adapter
        → ((n : ℕ) (x : ChatCompletionRequest) → env.call n adapter x ≡ returned (value n x))
        → IsClosed p w.shared
        → is_exhausted (loop env s registry request start (pre ++ t ∷ post) l w).0 ≡ false
    unfolding loop
    loop-Goes [] post t adapter value l w others same e up c =
        let (v, r, settled, same_turn) = visit_up t adapter value l w same e up c in
        rw same_turn settled
    loop-Goes (u ∷ pre) post t adapter value l w (other, rest) same e up c =
        go (visit env s registry request start u l w)
          (loop env s registry request start (pre ++ t ∷ post)) (visit_other u l w other c)
          (λ l' v c'. loop-Goes pre post t adapter value l' v rest same e up c')

module _ {ℓ} {Adapter : Type 0} {A : Type ℓ} (env : Env Adapter A) (s : Settings) where
  -- Suppose that one target's provider is configured, answers every call, and has a closed breaker
  -- that the other requests keep closed, that no target before it has the same provider, and that
  -- the deadline is not passed. Then the run does not end in `AllTargetsFailed`, whatever the other
  -- targets' adapters and breakers do.
  pub healthy_target_reached :
      (pre post : List Target) (t : Target) (adapter : Adapter)
      (value : ℕ → ChatCompletionRequest → A) (registry : Dict String Adapter)
      (request : ChatCompletionRequest) (w : World A)
      → ((n : ℕ) (x : Shared) → IsClosed t.provider x → IsClosed t.provider (env.others n x))
      → ((n : ℕ) → env.now n ≤ env.now w.tick + s.deadline)
      → All (λ u. u.provider ≢ t.provider) pre
      → lookup t.provider registry ≡ some adapter
      → ((n : ℕ) (x : ChatCompletionRequest) → env.call n adapter x ≡ returned (value n x))
      → IsClosed t.provider w.shared
      → is_exhausted (run env s (pre ++ t ∷ post) registry request w).0 ≡ false
  unfolding run
  healthy_target_reached pre post t adapter value registry request w kept in_time others e up c =
      loop-Goes env s t.provider kept registry request (env.now w.tick)
        (λ n. ground (arith, in_time n)) pre post t adapter value _ _ others refl e up c
