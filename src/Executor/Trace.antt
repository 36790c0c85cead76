-- ===== src/Executor/Trace.antt =====
-- retry.py: what a run of the executor did, read off its upstream calls and the failures it counted.
use mathlib.Core.List.{append_assoc, append-nil}
use switchyard_llm.Prelude.{
  ℕ, ◌+◌, ◌≡◌, refl, ap, sym, ◌∙◌, ◌⊎◌, inl, inr, String, string_eq, Bool, true, false, List, [],
  ◌∷◌, ◌++◌, Option, Option-cases, Bool-cases, Dict, lookup, map, arith, ltb,
}
use switchyard_llm.Breaker.{allow}
use switchyard_llm.Breaker.Registry.{get}
use switchyard_llm.Schemas.{ChatCompletionRequest, Target}
use switchyard_llm.Executor.{
  awaited, Outcome, returned, upstream, timed_out, transport, crashed, LastError, Result, served,
  raised, escaped, all_failed, Reason, unavailable, breaker_open, timeout, transport_failure,
  upstream_status, Env, Settings, World, Locals, Turn, again, stop, done, is_retryable_status,
  ticked, clock, pause, settle, attempt, visit, proceed, loop,
}

abbrev pub providers : List (String × Reason) → List String
providers = map λ f. f.0

abbrev counted : String → Reason → List (String × Reason) → List (String × Reason)
counted provider reason fs = fs ++ (provider, reason) ∷ []

pub extend_log {ℓ} :
    {A : Type ℓ} (us ys bs : List A) {vs xs : List A}
    → xs ≡ vs ++ bs
    → vs ≡ us ++ ys
    → xs ≡ us ++ (ys ++ bs)
extend_log us ys bs p q = p ∙ ap (λ v. v ++ bs) q ∙ append_assoc us ys bs

module _ {ℓ} {A : Type ℓ} where
  -- The outcomes after which the executor goes on to the next target.
  abbrev pub retryable : Outcome A → Bool
  retryable (returned a) = false
  retryable (upstream status body) = is_retryable_status status
  retryable timed_out = true
  retryable transport = true
  retryable crashed = false

  -- What the executor ends with after any other outcome.
  abbrev pub conclude : Target → Outcome A → Result A
  conclude t (returned a) = served a t
  conclude t (upstream status body) = raised status body
  conclude t _ = escaped

  -- The specification: the targets are taken in order, each called or skipped; a skip or a retryable
  -- outcome counts one failure of its provider, the first other outcome ends the run, and
  -- `AllTargetsFailed` comes after the last target, or earlier if `late` allows it.
  pub data Walk (late : Bool)
      : List Target → List (Target × Outcome A) → List String → Result A → Type ℓ where
    exhausted : (e : Option LastError) → Walk late [] [] [] (all_failed e)
    expired :
        (ts : List Target) (e : Option LastError) → late ≡ true → Walk late ts [] [] (all_failed e)
    skipped :
        (t : Target) {ts : List Target} {cs : List (Target × Outcome A)} {fs : List String}
        {r : Result A}
        → Walk late ts cs fs r
        → Walk late (t ∷ ts) cs (t.provider ∷ fs) r
    failed :
        (t : Target) (o : Outcome A) {ts : List Target} {cs : List (Target × Outcome A)}
        {fs : List String} {r : Result A}
        → retryable o ≡ true
        → Walk late ts cs fs r
        → Walk late (t ∷ ts) ((t, o) ∷ cs) (t.provider ∷ fs) r
    ended :
        (t : Target) (o : Outcome A) (ts : List Target)
        → retryable o ≡ false
        → Walk late (t ∷ ts) ((t, o) ∷ []) [] (conclude t o)

module _ {ℓ} {Adapter : Type 0} {A : Type ℓ} (env : Env Adapter A) (s : Settings) where
  -- What one round may do to the two logs, with the clock's reading number `n` at its start.
  abbrev Legal :
      ℕ → Target → ℕ → List (Target × Outcome A) → List (String × Reason) → Turn A → Type ℓ
  Legal start t n calls failures (again l v) =
      ((v.calls ≡ calls)
        ⊎ ((o : Outcome A) × (retryable o ≡ true) × (v.calls ≡ calls ++ (t, o) ∷ [])))
      × ((reason : Reason) × (v.failures ≡ failures ++ (t.provider, reason) ∷ []))
  Legal start t n calls failures (stop l v) =
      (v.calls ≡ calls) × (v.failures ≡ failures) × (ltb (start + s.deadline) (env.now n) ≡ true)
  Legal start t n calls failures (done r v) =
      (o : Outcome A) × (retryable o ≡ false)
      × (r ≡ conclude t o)
      × (v.calls ≡ calls ++ (t, o) ∷ [])
      × (v.failures ≡ failures)

  pause_logs :
      (n : ℕ) (w : World A)
      → ((pause env s n w).calls ≡ w.calls) × ((pause env s n w).failures ≡ w.failures)
  unfolding pause
  pause_logs n w = ground arith

  settle-Legal :
      (start n attempt_start : ℕ) (t : Target) (l : Locals) (o : Outcome A) (w v : World A)
      → v.calls ≡ w.calls ++ (t, o) ∷ []
      → v.failures ≡ w.failures
      → Legal start t n w.calls w.failures (settle env s t attempt_start l o v)
  unfolding settle
  settle-Legal start n a t l (returned x) w v p q = (returned x, refl, refl, p, q)
  settle-Legal start n a t l (upstream status body) w v p q =
      elim (Bool-cases (is_retryable_status status)) [
        | inl e ↦
            rw (e, settle)
              (
                inr (upstream status body, e, p),
                (upstream_status status, ap (counted t.provider (upstream_status status)) q),
              )
        | inr e ↦ rw (e, settle) (upstream status body, e, refl, p, q)
      ]
  settle-Legal start n a t l timed_out w v p q =
      (inr (timed_out, refl, p), (timeout, ap (counted t.provider timeout) q))
  settle-Legal start n a t l transport w v p q =
      (inr (transport, refl, p), (transport_failure, ap (counted t.provider transport_failure) q))
  settle-Legal start n a t l crashed w v p q = (crashed, refl, refl, p, q)

  attempt-Legal :
      (request : ChatCompletionRequest) (start n : ℕ) (t : Target) (adapter : Adapter) (l : Locals)
      (w : World A)
      → Legal start t n w.calls w.failures (attempt env s request t adapter l w)
  unfolding attempt
  attempt-Legal request start n t adapter l w =
      let (calls, failures) = pause_logs l.attempts w in
      let w1 = pause env s l.attempts w in
      let w2 = ticked env s w1 in
      let o = env.call w2.tick adapter (record request { model = t.model }) in
      settle-Legal start n (clock env s w1) t (record l { attempts = l.attempts + 1 }) o w
        (awaited env s t o w2) (ap (λ (cs : List (Target × Outcome A)). cs ++ (t, o) ∷ []) calls)
        failures

  visit-Legal :
      (registry : Dict String Adapter) (request : ChatCompletionRequest) (start : ℕ) (t : Target)
      (l : Locals) (w : World A)
      → Legal start t w.tick w.calls w.failures (visit env s registry request start t l w)
  unfolding visit
  visit-Legal registry request start t l w =
      elim (Bool-cases (ltb (start + s.deadline) (env.now w.tick))) [
        | inl late ↦ rw (late, visit) (refl, refl, late)
        | inr time ↦ elim (Option-cases (lookup t.provider registry)) [
          | inl absent ↦ rw (time, absent, visit) (inl refl, (unavailable, refl))
          | inr (adapter, e) ↦
              elim (Bool-cases
                (allow s.breaker (env.now (w.tick + 1)) (get t.provider w.shared.breakers).1).1) [
                  | inl granted ↦
                      rw (time, e, granted, visit)
                        (attempt-Legal request start w.tick t adapter l _)
                  | inr refused ↦ rw (time, e, refused, visit) (inl refl, (breaker_open, refl))
                ]
        ]
      ]

  -- The logs after a run are the logs before it and a walk of the specification.
  abbrev pub Ran : Bool → List Target → World A → Result A × World A → Type ℓ
  Ran late ts w (r, v) =
      (cs : List (Target × Outcome A)) × (fs : List (String × Reason)) × (v.calls ≡ w.calls ++ cs)
      × (v.failures ≡ w.failures ++ fs)
      × Walk late ts cs (providers fs) r

  module _ (registry : Dict String Adapter) (request : ChatCompletionRequest) (start : ℕ)
      (late : Bool)
      (in_time : (n : ℕ) → ltb (start + s.deadline) (env.now n) ≡ true → late ≡ true) where
    extend-Ran :
        (t : Target) (ts : List Target) (w : World A) (turn : Turn A)
        (rest : Locals → World A → Result A × World A)
        → Legal start t w.tick w.calls w.failures turn
        → ((l : Locals) (v : World A) → Ran late ts v (rest l v))
        → Ran late (t ∷ ts) w (proceed env s turn rest)
    extend-Ran t ts w (again l v) rest (inl same, (reason, counts)) ih =
        let (cs, fs, p, q, walk) = ih l v in
        (
          cs,
          (t.provider, reason) ∷ fs,
          p ∙ ap (λ (ds : List (Target × Outcome A)). ds ++ cs) same,
          extend_log w.failures _ fs q counts,
          skipped t walk,
        )
    extend-Ran t ts w (again l v) rest (inr (o, again_ok, called), (reason, counts)) ih =
        let (cs, fs, p, q, walk) = ih l v in
        (
          (t, o) ∷ cs,
          (t.provider, reason) ∷ fs,
          extend_log w.calls _ cs p called,
          extend_log w.failures _ fs q counts,
          failed t o again_ok walk,
        )
    extend-Ran t ts w (stop l v) rest (p, q, over) ih = (
      [],
      [],
      p ∙ sym (append-nil _),
      q ∙ sym (append-nil _),
      expired (t ∷ ts) _ (in_time _ over),
    )
    extend-Ran t ts w (done r v) rest (o, final, e, p, q) ih =
        ((t, o) ∷ [], [], p, q ∙ sym (append-nil _), rw e (ended t o ts final))

    pub loop-Ran :
        (ts : List Target) (l : Locals) (w : World A)
        → Ran late ts w (loop env s registry request start ts l w)
    unfolding loop
    loop-Ran [] l w = ([], [], sym (append-nil _), sym (append-nil _), exhausted _)
    loop-Ran (t ∷ ts) l w =
        extend-Ran t ts w (visit env s registry request start t l w)
          (loop env s registry request start ts) (visit-Legal registry request start t l w)
          (loop-Ran ts)
