-- ===== src/Executor/Backoff.antt =====
-- retry.py: how long the executor waits between attempts.
use mathlib.Core.List.{append-nil}
use switchyard_llm.Prelude.{
  ℕ, zero, suc, subst, min, true, length, if◌then◌else◌, ◌+◌, ◌-◌, ◌*◌, ◌^◌, ◌≤◌, ◌≡◌, refl, sym,
  ap, ◌∙◌, String, List, [], ◌∷◌, ◌++◌, Dict, lookup, arith, ltb, string_eq, Bool-cases, inl, inr,
  Option-cases, ◌⊎◌,
}
use switchyard_llm.Breaker.{allow}
use switchyard_llm.Breaker.Registry.{get}
use switchyard_llm.Schemas.{ChatCompletionRequest, Target}
use switchyard_llm.Executor.{
  Outcome, returned, upstream, timed_out, transport, crashed, Result, Env, Settings, World, Locals,
  Turn, again, stop, done, is_retryable_status, ceiling, pause, settle, awaited, attempt, visit,
  ticked, clock, proceed, loop, run,
}
use switchyard_llm.Executor.Trace.{extend_log}

module _ {ℓ} {Adapter : Type 0} {A : Type ℓ} (env : Env Adapter A) (s : Settings)
    (drawn : (n c : ℕ) → env.uniform n c ≤ c) where
  -- One delay for each call from the call number `n` on, counted from 0: none before the first call,
  -- and before the call number k + 1 one of at most the base delay doubled k times.
  abbrev pub Delays : ℕ → List ℕ → Type 0
  Delays zero [] = Unit {0}
  Delays (suc k) [] = Unit {0}
  Delays zero (d ∷ ds) = (d ≡ 0) × Delays 1 ds
  Delays (suc k) (d ∷ ds) = (d ≤ s.base_delay * 2 ^ k) × (d ≤ s.max_delay) × Delays (suc (suc k)) ds

  abbrev pub positive : List ℕ → List ℕ
  positive [] = []
  positive (d ∷ ds) = let rest = positive ds in if ltb 0 d then d ∷ rest else rest

  abbrev world_of : Turn A → World A
  world_of (again l v) = v
  world_of (stop l v) = v
  world_of (done r v) = v

  abbrev Made : ℕ → Turn A → Type 0
  Made n (again l v) = l.attempts ≡ n
  Made n _ = Unit {0}

  -- The delay before a call of number `n`.
  abbrev Delay : ℕ → ℕ → Type 0
  Delay zero d = d ≡ 0
  Delay (suc k) d = (d ≤ s.base_delay * 2 ^ k) × (d ≤ s.max_delay)

  -- A round of the loop makes no call and no wait, or one call with the wait before it.
  abbrev Round : ℕ → World A → Turn A → Type ℓ
  Round n w turn =
      (((world_of turn).slept ≡ w.slept) × ((world_of turn).calls ≡ w.calls) × Made n turn)
      ⊎ ((d : ℕ) × (c : Target × Outcome A) × Delay n d
          × ((world_of turn).slept ≡ w.slept ++ positive (d ∷ []))
          × ((world_of turn).calls ≡ w.calls ++ c ∷ [])
          × Made (suc n) turn)

  pause_slept :
      (n : ℕ) (w : World A)
      → ((pause env s n w).calls ≡ w.calls)
        × (d : ℕ) × Delay n d
        × ((pause env s n w).slept ≡ w.slept ++ positive (d ∷ []))
  unfolding pause ceiling
  pause_slept zero w = (refl, 0, refl, sym (append-nil w.slept))
  pause_slept (suc k) w =
      let later : ltb 0 (suc k) ≡ true = ground arith in
      let d = env.uniform w.tick (ceiling env s (suc k)) in
      let low : d ≤ ceiling env s (suc k) = drawn _ _ in
      let less : suc k - 1 ≡ k = omega arith in
      let bound : d ≤ min (s.base_delay * 2 ^ k) s.max_delay =
        subst (λ j. d ≤ min (s.base_delay * 2 ^ j) s.max_delay) less low in
      elim (Bool-cases (ltb 0 d)) [
        | inl wait ↦ (
          rw (later, wait, pause) refl,
          d,
          (omega (arith, bound), omega (arith, bound)),
          rw (later, wait, pause) refl,
        )
        | inr none ↦ (
          rw (later, none, pause) refl,
          d,
          (omega (arith, bound), omega (arith, bound)),
          rw (later, none, pause) (sym (append-nil w.slept)),
        )
      ]

  settle_slept :
      (t : Target) (start : ℕ) (l : Locals) (o : Outcome A) (w : World A)
      → ((world_of (settle env s t start l o w)).slept ≡ w.slept)
        × ((world_of (settle env s t start l o w)).calls ≡ w.calls)
        × Made l.attempts (settle env s t start l o w)
  unfolding settle
  settle_slept t start l (returned a) w = (refl, refl, tt)
  settle_slept t start l (upstream status body) w = elim (Bool-cases (is_retryable_status status)) [
    | inl e ↦ rw (e, settle) (refl, refl, refl)
    | inr e ↦ rw (e, settle) (refl, refl, tt)
  ]
  settle_slept t start l timed_out w = (refl, refl, refl)
  settle_slept t start l transport w = (refl, refl, refl)
  settle_slept t start l crashed w = (refl, refl, tt)

  attempt-Round :
      (request : ChatCompletionRequest) (t : Target) (adapter : Adapter) (l : Locals) (w : World A)
      → Round l.attempts w (attempt env s request t adapter l w)
  unfolding attempt
  attempt-Round request t adapter l w =
      let w1 = pause env s l.attempts w in
      let w2 = ticked env s w1 in
      let o = env.call w2.tick adapter (record request { model = t.model }) in
      let next : l.attempts + 1 ≡ suc l.attempts = omega arith in
      let (slept, calls, made) =
        settle_slept t (clock env s w1) (record l { attempts = l.attempts + 1 }) o
          (awaited env s t o w2) in
      let (quiet, d, delay, waited) = pause_slept l.attempts w in
      inr (
        d,
        (t, o),
        delay,
        slept ∙ waited,
        calls ∙ ap (λ (cs : List (Target × Outcome A)). cs ++ (t, o) ∷ []) quiet,
        subst
            (λ n. Made n (
              settle env s t (clock env s w1) (record l { attempts = l.attempts + 1 }) o
                (awaited env s t o w2)))
            next made,
      )

  module _ (registry : Dict String Adapter) (request : ChatCompletionRequest) (start : ℕ) where
    visit-Round :
        (t : Target) (l : Locals) (w : World A)
        → Round l.attempts w (visit env s registry request start t l w)
    unfolding visit
    visit-Round t l w = elim (Bool-cases (ltb (start + s.deadline) (env.now w.tick))) [
      | inl late ↦ rw (late, visit) (inl (refl, refl, tt))
      | inr time ↦ elim (Option-cases (lookup t.provider registry)) [
        | inl absent ↦ rw (time, absent, visit) (inl (refl, refl, refl))
        | inr (adapter, e) ↦
            elim (Bool-cases
              (allow s.breaker (env.now (w.tick + 1)) (get t.provider w.shared.breakers).1).1) [
                | inl granted ↦ rw (time, e, granted, visit) (attempt-Round request t adapter l _)
                | inr refused ↦ rw (time, e, refused, visit) (inl (refl, refl, refl))
              ]
      ]
    ]

    -- The calls and the waits of a loop that starts with `n` calls made.
    abbrev Waited : ℕ → World A → World A → Type ℓ
    Waited n w v =
        (cs : List (Target × Outcome A)) × (ds : List ℕ) × (v.calls ≡ w.calls ++ cs)
        × (v.slept ≡ w.slept ++ positive ds)
        × (length ds ≡ length cs)
        × Delays n ds

    Delays-cons : (n d : ℕ) (ds : List ℕ) → Delay n d → Delays (suc n) ds → Delays n (d ∷ ds)
    Delays-cons zero d ds p h = (p, h)
    Delays-cons (suc k) d ds (p, q) h = (p, q, h)

    Delays-nil : (k : ℕ) → Delays k []
    Delays-nil zero = tt
    Delays-nil (suc k) = tt

    positive-cons : (d : ℕ) (ds : List ℕ) → positive (d ∷ []) ++ positive ds ≡ positive (d ∷ ds)
    positive-cons d ds = ground arith

    ended_Waited :
        (n : ℕ) (w v : World A) (turn : Turn A) → world_of turn ≡ v → Round n w turn → Waited n w v
    ended_Waited n w v turn e (inl (slept, calls, _)) = (
      [],
      [],
      ap (λ (x : World A). x.calls) (sym e) ∙ calls ∙ sym (append-nil w.calls),
      ap (λ (x : World A). x.slept) (sym e) ∙ slept ∙ sym (append-nil w.slept),
      refl,
      Delays-nil n,
    )
    ended_Waited n w v turn e (inr (x, call, delay, slept, calls, _)) = (
      call ∷ [],
      x ∷ [],
      ap (λ (x : World A). x.calls) (sym e) ∙ calls,
      ap (λ (x : World A). x.slept) (sym e) ∙ slept,
      refl,
      Delays-cons n x [] delay (Delays-nil (suc n)),
    )

    proceed-Waited :
        (n : ℕ) (w : World A) (turn : Turn A) (rest : Locals → World A → Result A × World A)
        → Round n w turn
        → ((l : Locals) (v : World A) → Waited l.attempts v (rest l v).1)
        → Waited n w (proceed env s turn rest).1
    proceed-Waited n w (again l v) rest (inl (slept, calls, made)) ih =
        let (cs, ds, c, d, size, delays) = ih l v in
        (
          cs,
          ds,
          c ∙ ap (λ (x : List (Target × Outcome A)). x ++ cs) calls,
          d ∙ ap (λ (x : List ℕ). x ++ positive ds) slept,
          size,
          subst (λ k. Delays k ds) made delays,
        )
    proceed-Waited n w (again l v) rest (inr (x, call, delay, slept, calls, made)) ih =
        let (cs, ds, c, d, size, delays) = ih l v in
        (
          call ∷ cs,
          x ∷ ds,
          extend_log w.calls (call ∷ []) cs c calls,
          extend_log w.slept (positive (x ∷ [])) (positive ds) d slept
              ∙ ap (λ (z : List ℕ). w.slept ++ z) (positive-cons x ds),
          ap suc size,
          Delays-cons n x ds delay (subst (λ k. Delays k ds) made delays),
        )
    proceed-Waited n w (stop l v) rest round ih = ended_Waited n w v (stop l v) refl round
    proceed-Waited n w (done r v) rest round ih = ended_Waited n w v (done r v) refl round

    loop-Waited :
        (ts : List Target) (l : Locals) (w : World A)
        → Waited l.attempts w (loop env s registry request start ts l w).1
    unfolding loop
    loop-Waited [] l w =
        ([], [], sym (append-nil w.calls), sym (append-nil w.slept), refl, Delays-nil l.attempts)
    loop-Waited (t ∷ ts) l w =
        proceed-Waited l.attempts w (visit env s registry request start t l w)
          (loop env s registry request start ts) (visit-Round t l w) (loop-Waited ts)

  -- If the random draws keep to their ceilings, a run draws one delay for each of its upstream calls:
  -- none before the first, and before the call that follows k + 1 others one of at most the base
  -- delay doubled k times and at most the maximal delay. Its waits are the delays that are positive,
  -- in order.
  pub run-Bounded :
      (targets : List Target) (registry : Dict String Adapter) (request : ChatCompletionRequest)
      (w : World A)
      → let v = (run env s targets registry request w).1 in
        (cs : List (Target × Outcome A)) × (ds : List ℕ) × (v.calls ≡ w.calls ++ cs)
        × (v.slept ≡ w.slept ++ positive ds)
        × (length ds ≡ length cs)
        × Delays 0 ds
  unfolding run
  run-Bounded targets registry request w = loop-Waited registry request (env.now w.tick) targets _ _
