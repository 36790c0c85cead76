-- ===== src/Executor/Calls.antt =====
-- retry.py: where the upstream calls of a run go, and with which request.
use mathlib.Core.List.{append_assoc, append-nil}
use switchyard_llm.Prelude.{
  ℕ, ◌+◌, ◌≡◌, refl, ap, sym, ◌∙◌, inl, inr, String, string_eq, List, [], ◌∷◌, ◌++◌, Option-cases,
  Bool-cases, Dict, lookup, some, arith, ltb, All, All-append,
}
use switchyard_llm.Breaker.{allow}
use switchyard_llm.Breaker.Registry.{get}
use switchyard_llm.Schemas.{ChatCompletionRequest, Target}
use switchyard_llm.Executor.{
  awaited, Outcome, returned, upstream, timed_out, transport, crashed, Result, Env, Settings, World,
  Locals, Turn, again, stop, done, ticked, clock, pause, settle, attempt, visit, proceed, loop, run,
}

module _ {ℓ} {Adapter : Type 0} {A : Type ℓ} (env : Env Adapter A) (s : Settings)
    (registry : Dict String Adapter) (request : ChatCompletionRequest) where
  -- A call of the target's own adapter, with the request for the target's model.
  abbrev pub Genuine : Target × Outcome A → Type ℓ
  Genuine (t, o) =
      (adapter : Adapter) × (n : ℕ) × (lookup t.provider registry ≡ some adapter)
      × (o ≡ env.call n adapter (record request { model = t.model }))

  abbrev Grown : List (Target × Outcome A) → List (Target × Outcome A) → Type ℓ
  Grown us vs = (cs : List (Target × Outcome A)) × (vs ≡ us ++ cs) × All Genuine cs

  Grown-none : (us vs : List (Target × Outcome A)) → vs ≡ us → Grown us vs
  Grown-none us vs e = ([], e ∙ sym (append-nil us), tt)

  Grown-append : (us vs ws : List (Target × Outcome A)) → Grown us vs → Grown vs ws → Grown us ws
  Grown-append us vs ws (cs, p, a) (ds, q, b) = (
    cs ++ ds,
    q ∙ ap (λ (l : List (Target × Outcome A)). l ++ ds) p ∙ append_assoc us cs ds,
    All-append Genuine cs ds a b,
  )

  abbrev turn_calls : Turn A → List (Target × Outcome A)
  turn_calls (again l w) = w.calls
  turn_calls (stop l w) = w.calls
  turn_calls (done r w) = w.calls

  settle_calls :
      (t : Target) (start : ℕ) (l : Locals) (o : Outcome A) (w : World A)
      → turn_calls (settle env s t start l o w) ≡ w.calls
  unfolding settle
  settle_calls t start l (returned a) w = refl
  settle_calls t start l (upstream status body) w = ground arith
  settle_calls t start l timed_out w = refl
  settle_calls t start l transport w = refl
  settle_calls t start l crashed w = refl

  pause_calls : (n : ℕ) (w : World A) → (pause env s n w).calls ≡ w.calls
  unfolding pause
  pause_calls n w = ground arith

  attempt-Grown :
      (t : Target) (adapter : Adapter) (l : Locals) (w : World A)
      → lookup t.provider registry ≡ some adapter
      → Grown w.calls (turn_calls (attempt env s request t adapter l w))
  unfolding attempt
  attempt-Grown t adapter l w e =
      let w1 = pause env s l.attempts w in
      let w2 = ticked env s w1 in
      let o = env.call w2.tick adapter (record request { model = t.model }) in
      (
        (t, o) ∷ [],
        settle_calls t (clock env s w1) (record l { attempts = l.attempts + 1 }) o
              (awaited env s t o w2)
            ∙ ap (λ (cs : List (Target × Outcome A)). cs ++ (t, o) ∷ []) (pause_calls l.attempts w),
        ((adapter, w2.tick, e, refl), tt),
      )

  visit-Grown :
      (start : ℕ) (t : Target) (l : Locals) (w : World A)
      → Grown w.calls (turn_calls (visit env s registry request start t l w))
  unfolding visit
  visit-Grown start t l w = elim (Bool-cases (ltb (start + s.deadline) (env.now w.tick))) [
    | inl late ↦ rw (late, visit) (Grown-none _ _ refl)
    | inr time ↦ elim (Option-cases (lookup t.provider registry)) [
      | inl absent ↦ rw (time, absent, visit) (Grown-none _ _ refl)
      | inr (adapter, e) ↦
          elim (Bool-cases
            (allow s.breaker (env.now (w.tick + 1)) (get t.provider w.shared.breakers).1).1) [
              | inl granted ↦ rw (time, e, granted, visit) (attempt-Grown t adapter l _ e)
              | inr refused ↦ rw (time, e, refused, visit) (Grown-none _ _ refl)
            ]
    ]
  ]

  proceed-Grown :
      (us : List (Target × Outcome A)) (turn : Turn A)
      (rest : Locals → World A → Result A × World A)
      → Grown us (turn_calls turn)
      → ((l : Locals) (w : World A) → Grown w.calls (rest l w).1.calls)
      → Grown us (proceed env s turn rest).1.calls
  proceed-Grown us (again l w) rest g ih = Grown-append us w.calls _ g (ih l w)
  proceed-Grown us (stop l w) rest g ih = g
  proceed-Grown us (done r w) rest g ih = g

  loop-Grown :
      (start : ℕ) (ts : List Target) (l : Locals) (w : World A)
      → Grown w.calls (loop env s registry request start ts l w).1.calls
  unfolding loop
  loop-Grown start [] l w = Grown-none _ _ refl
  loop-Grown start (t ∷ ts) l w =
      proceed-Grown w.calls (visit env s registry request start t l w)
        (loop env s registry request start ts) (visit-Grown start t l w) (loop-Grown start ts)

  -- Every upstream call of a run is of the adapter that the registry has for the target's provider,
  -- with the request for the target's model, and its outcome is what that call comes to.
  pub run-Genuine :
      (targets : List Target) (w : World A)
      → (cs : List (Target × Outcome A)) × ((run env s targets registry request w).1.calls
          ≡ w.calls ++ cs)
        × All Genuine cs
  unfolding run
  run-Genuine targets w = loop-Grown (env.now w.tick) targets _ _
