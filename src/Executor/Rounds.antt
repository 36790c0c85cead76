-- ===== src/Executor/Rounds.antt =====
-- retry.py: what one round leaves of the breakers while no other request is served.
use switchyard_llm.Prelude.{
  ℕ, ◌+◌, ◌≡◌, refl, sym, ◌∙◌, ap, subst, inl, inr, String, string_eq, true, false, Dict, lookup,
  some, ltb, arith, Bool-cases, if◌then◌else◌,
}
use switchyard_llm.Breaker.{closed, CircuitBreaker, Config, allow, record_success, record_failure}
use switchyard_llm.Breaker.Registry.{Breakers, get, put, breaker_of, breaker_of-put}
use switchyard_llm.Schemas.{Json, ChatCompletionRequest, Target}
use switchyard_llm.Executor.{
  returned, upstream, served, Shared, Env, Settings, World, Locals, again, done,
  is_retryable_status, ticked, pause, settle, attempt, visit, set_breaker, report_success,
  report_failure, observe,
}

-- A breaker after a round whose call fails, with the readings of the clock.
abbrev pub failed_turn : Config → ℕ → ℕ → CircuitBreaker → CircuitBreaker
failed_turn c now time b =
    let (b', granted) = allow c now b in if granted then record_failure c time b' else b'

turn_granted :
    (c : Config) (now time : ℕ) (b : CircuitBreaker)
    → (allow c now b).1 ≡ true
    → failed_turn c now time b ≡ record_failure c time (allow c now b).0
turn_granted c now time b h = rw h refl

turn_refused :
    (c : Config) (now time : ℕ) (b : CircuitBreaker)
    → (allow c now b).1 ≡ false
    → failed_turn c now time b ≡ (allow c now b).0
turn_refused c now time b h = rw h refl

-- The breakers but one are as before.
abbrev pub Changed : String → CircuitBreaker → Breakers → Breakers → Type 0
Changed p b m m' =
    (q : String) → breaker_of q m' ≡ (if string_eq.beq p q then b else breaker_of q m)

put-Changed : (p : String) (b : CircuitBreaker) (m : Breakers) → Changed p b m (put p b m)
put-Changed p b m q = breaker_of-put p q b m

put-put-Changed :
    (p : String) (b b' : CircuitBreaker) (m : Breakers) → Changed p b m (put p b (put p b' m))
put-put-Changed p b b' m q =
    ground (arith, breaker_of-put p q b (put p b' m), breaker_of-put p q b' m)

-- A call on the breaker that the round has put there before.
reported-Changed :
    (p : String) (report : CircuitBreaker → CircuitBreaker) (b : CircuitBreaker) (m m' : Breakers)
    → m' ≡ put p (report (breaker_of p (put p b m))) (put p b m)
    → Changed p (report b) m m'
reported-Changed p report b m m' e =
    let same : breaker_of p (put p b m) ≡ b =
      ground (arith, breaker_of-put p p b m, string_eq.beq_iff p p) in
    subst (Changed p (report b) m)
      (sym (e ∙ ap (λ (c : CircuitBreaker). put p (report c) (put p b m)) same))
      (put-put-Changed p (report b) b m)

observe_breakers :
    (p : String) (elapsed : ℕ) (x : Shared) → (observe p elapsed x).breakers ≡ x.breakers
unfolding observe
observe_breakers p elapsed x = ground arith

module _ {ℓ} {Adapter : Type 0} {A : Type ℓ} (env : Env Adapter A) (s : Settings)
    (registry : Dict String Adapter) (request : ChatCompletionRequest)
    (kept : (n : ℕ) (x : Shared) → env.others n x ≡ x) where
  pause_shared : (n : ℕ) (w : World A) → (pause env s n w).shared ≡ w.shared
  unfolding pause
  pause_shared n w = ground (arith, kept w.tick w.shared)

  module _ (t : Target) (adapter : Adapter) where
    awaited_shared : (n m : ℕ) (w : World A) → env.others n (pause env s m w).shared ≡ w.shared
    awaited_shared n m w = kept n (pause env s m w).shared ∙ pause_shared m w

    attempt_failing :
        (body : ℕ → Json) (l : Locals) (w : World A)
        → ((n : ℕ)
            → env.call n adapter (record request { model = t.model }) ≡ upstream 503 (body n))
        → (l' : Locals) × (v : World A) × (time : ℕ) × (attempt env s request t adapter l w
            ≡ again l' v)
          × (v.shared.breakers
              ≡ put t.provider
                  (record_failure s.breaker time (breaker_of t.provider w.shared.breakers))
                  w.shared.breakers)
    unfolding attempt settle report_failure is_retryable_status
    attempt_failing body l w down =
        let time = env.now ((pause env s l.attempts w).tick + 1 + 1) in
        rw (attempt, down _, settle)
          (
            _,
            _,
            time,
            refl,
            ap
                (λ (x : Shared).
                  put t.provider (record_failure s.breaker time (get t.provider x.breakers).1)
                    x.breakers)
                (awaited_shared _ l.attempts w),
          )

    attempt_serving :
        (value : ℕ → A) (l : Locals) (w : World A)
        → ((n : ℕ) → env.call n adapter (record request { model = t.model }) ≡ returned (value n))
        → (n : ℕ) × (v : World A) × (attempt env s request t adapter l w
            ≡ done (served (value n) t) v)
          × (v.shared.breakers
              ≡ put t.provider
                  (record_success s.breaker (breaker_of t.provider w.shared.breakers))
                  w.shared.breakers)
    unfolding attempt settle report_success observe
    attempt_serving value l w up =
        rw (attempt, up _, settle)
          (
            _,
            _,
            refl,
            observe_breakers t.provider _ _
                ∙ ap
                    (λ (x : Shared).
                      put t.provider (record_success s.breaker (get t.provider x.breakers).1)
                        x.breakers)
                    (awaited_shared _ l.attempts w),
          )

    module _ (start : ℕ) (in_time : (n : ℕ) → ltb (start + s.deadline) (env.now n) ≡ false)
        (known : lookup t.provider registry ≡ some adapter) where
      pub visit_failing :
          (body : ℕ → Json) (l : Locals) (w : World A)
          → ((n : ℕ)
              → env.call n adapter (record request { model = t.model }) ≡ upstream 503 (body n))
          → (l' : Locals) × (v : World A) × (now : ℕ) × (time : ℕ) × (visit env s registry request
                start t l w
              ≡ again l' v)
            × Changed t.provider
                (failed_turn s.breaker now time (breaker_of t.provider w.shared.breakers))
                w.shared.breakers
                v.shared.breakers
      unfolding visit
      visit_failing body l w down =
          let now = env.now (w.tick + 1) in
          let m = w.shared.breakers in
          let b = (allow s.breaker now (breaker_of t.provider m)).0 in
          elim (Bool-cases (allow s.breaker now (breaker_of t.provider m)).1) [
            | inl granted ↦
                let (l', v, time, goes, left) =
                  attempt_failing body l (ticked env s (set_breaker t.provider b (ticked env s w)))
                    down in
                rw (in_time w.tick, known, granted, visit)
                  (
                    l',
                    v,
                    now,
                    time,
                    goes,
                    subst (λ (c : CircuitBreaker). Changed t.provider c m v.shared.breakers)
                        (sym (turn_granted s.breaker now time (breaker_of t.provider m) granted))
                        (reported-Changed t.provider (record_failure s.breaker time) b m
                          v.shared.breakers left),
                  )
            | inr refused ↦
                rw (in_time w.tick, known, refused, visit)
                  (
                    _,
                    _,
                    now,
                    0,
                    refl,
                    subst (λ (c : CircuitBreaker). Changed t.provider c m (put t.provider b m))
                        (sym (turn_refused s.breaker now 0 (breaker_of t.provider m) refused))
                        (put-Changed t.provider b m),
                  )
          ]

      pub visit_serving :
          (value : ℕ → A) (l : Locals) (w : World A)
          → ((n : ℕ) → env.call n adapter (record request { model = t.model }) ≡ returned (value n))
          → (breaker_of t.provider w.shared.breakers).state ≡ closed
          → (n : ℕ) × (v : World A) × (visit env s registry request start t l w
              ≡ done (served (value n) t) v)
            × Changed t.provider
                (record_success s.breaker (breaker_of t.provider w.shared.breakers))
                w.shared.breakers
                v.shared.breakers
      unfolding visit allow
      visit_serving value l w up is_closed =
          let m = w.shared.breakers in
          let granted : allow s.breaker (env.now (w.tick + 1)) (breaker_of t.provider m)
              ≡ (breaker_of t.provider m, true) =
            ground (arith, is_closed) in
          let (n, v, goes, left) =
            attempt_serving value l
              (ticked env s (set_breaker t.provider (breaker_of t.provider m) (ticked env s w)))
              up in
          rw (in_time w.tick, known, granted, visit)
            (
              n,
              v,
              goes,
              reported-Changed t.provider (record_success s.breaker) (breaker_of t.provider m) m
                  v.shared.breakers left,
            )
