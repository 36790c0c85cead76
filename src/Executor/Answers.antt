-- ===== src/Executor/Answers.antt =====
-- retry.py: what a run of the executor answers, against its upstream calls and the failures counted.
use mathlib.Core.List.{Sublist, nil-sublist}
use mathlib.Core.List.Sublist
use switchyard_llm.Prelude.{
  ℕ, ◌+◌, ◌≤◌, ◌<◌, ◌≢◌, Bool-cases, ◌≡◌, refl, ap, inl, inr, ◌⊎◌, String, Bool, true, false, List,
  [], ◌∷◌, ◌++◌, Option, Dict, map, arith, if◌then◌else◌,
}
use switchyard_llm.Schemas.{Json, ChatCompletionRequest, Target}
use switchyard_llm.Executor.{
  Outcome, returned, upstream, timed_out, transport, crashed, LastError, Result, raised, all_failed,
  Reason, Env, Settings, World, is_retryable_status, run,
}
use switchyard_llm.Executor.Trace.{
  retryable, conclude, providers, Walk, exhausted, expired, skipped, failed, ended, loop-Ran,
}

abbrev pub providers_of : List Target → List String
providers_of = map λ t. t.provider

module _ {ℓ} {A : Type ℓ} where
  -- The answer to a sequence of calls: that of the last, if it is the only one with a final outcome,
  -- and `AllTargetsFailed` if none has.
  abbrev pub Answer : List (Target × Outcome A) → Result A → Type ℓ
  Answer [] r = (e : Option LastError) × (r ≡ all_failed e)
  Answer ((t, o) ∷ cs) r = if retryable o then Answer cs r else (cs ≡ []) × (r ≡ conclude t o)

  abbrev pub called : List (Target × Outcome A) → List Target
  called = map λ c. c.0

  -- The failures that are counted: if the run ends with the outcome of its last call, one for every
  -- target before the one of that call, in order, and if all targets failed, one for every target.
  abbrev Ended : List Target → List (Target × Outcome A) → List String → Result A → Type ℓ
  Ended ts cs fs r =
      (before : List Target) × (t : Target) × (rest : List Target) × (earlier : List
        (Target × Outcome A))
      × (o : Outcome A) × (ts ≡ before ++ t ∷ rest)
      × (fs ≡ providers_of before)
      × (cs ≡ earlier ++ (t, o) ∷ [])
      × (r ≡ conclude t o)

  abbrev AllLeft : List Target → List String → Result A → Type ℓ
  AllLeft ts fs r = (e : Option LastError) × (r ≡ all_failed e) × (fs ≡ providers_of ts)

  abbrev pub Counted : List Target → List (Target × Outcome A) → List String → Result A → Type ℓ
  Counted ts cs fs r = Ended ts cs fs r ⊎ AllLeft ts fs r

  Walk-Answer :
      {late : Bool} {ts : List Target} {cs : List (Target × Outcome A)} {fs : List String}
      {r : Result A}
      → Walk late ts cs fs r
      → Sublist (called cs) ts × Answer cs r
  Walk-Answer (exhausted e) = (nil-sublist _, (e, refl))
  Walk-Answer (expired ts e h) = (nil-sublist _, (e, refl))
  Walk-Answer (skipped t w) = let (sub, ans) = Walk-Answer w in (Sublist.cons t sub, ans)
  Walk-Answer (failed t o h w) =
      let (sub, ans) = Walk-Answer w in (Sublist.cons-cons t sub, rw h ans)
  Walk-Answer (ended t o ts h) = (Sublist.cons-cons t (nil-sublist _), rw h (refl, refl))

  Ended-skip :
      (t : Target) (ts : List Target) (cs : List (Target × Outcome A)) (fs : List String)
      (r : Result A)
      → Ended ts cs fs r
      → Ended (t ∷ ts) cs (t.provider ∷ fs) r
  Ended-skip t ts cs fs r (before, u, rest, earlier, o, p, q, c, e) = (
    t ∷ before,
    u,
    rest,
    earlier,
    o,
    ap (λ (l : List Target). t ∷ l) p,
    ap (λ (l : List String). t.provider ∷ l) q,
    c,
    e,
  )

  Ended-call :
      (t : Target) (x : Outcome A) (ts : List Target) (cs : List (Target × Outcome A))
      (fs : List String) (r : Result A)
      → Ended ts cs fs r
      → Ended (t ∷ ts) ((t, x) ∷ cs) (t.provider ∷ fs) r
  Ended-call t x ts cs fs r (before, u, rest, earlier, o, p, q, c, e) = (
    t ∷ before,
    u,
    rest,
    (t, x) ∷ earlier,
    o,
    ap (λ (l : List Target). t ∷ l) p,
    ap (λ (l : List String). t.provider ∷ l) q,
    ap (λ (l : List (Target × Outcome A)). (t, x) ∷ l) c,
    e,
  )

  AllLeft-skip :
      (t : Target) (ts : List Target) (fs : List String) (r : Result A)
      → AllLeft ts fs r
      → AllLeft (t ∷ ts) (t.provider ∷ fs) r
  AllLeft-skip t ts fs r (e, p, q) = (e, p, ap (λ (l : List String). t.provider ∷ l) q)

  Counted-skip :
      (t : Target) (ts : List Target) (cs : List (Target × Outcome A)) (fs : List String)
      (r : Result A)
      → Counted ts cs fs r
      → Counted (t ∷ ts) cs (t.provider ∷ fs) r
  Counted-skip t ts cs fs r (inl h) = inl (Ended-skip t ts cs fs r h)
  Counted-skip t ts cs fs r (inr h) = inr (AllLeft-skip t ts fs r h)

  Counted-call :
      (t : Target) (x : Outcome A) (ts : List Target) (cs : List (Target × Outcome A))
      (fs : List String) (r : Result A)
      → Counted ts cs fs r
      → Counted (t ∷ ts) ((t, x) ∷ cs) (t.provider ∷ fs) r
  Counted-call t x ts cs fs r (inl h) = inl (Ended-call t x ts cs fs r h)
  Counted-call t x ts cs fs r (inr h) = inr (AllLeft-skip t ts fs r h)

  Walk-Counted :
      {late : Bool} {ts : List Target} {cs : List (Target × Outcome A)} {fs : List String}
      {r : Result A}
      → late ≡ false
      → Walk late ts cs fs r
      → Counted ts cs fs r
  Walk-Counted l (exhausted e) = inr (e, refl, refl)
  Walk-Counted l (expired ts e h) = cc
  Walk-Counted l (skipped t w) = Counted-skip t _ _ _ _ (Walk-Counted l w)
  Walk-Counted l (failed t o h w) = Counted-call t o _ _ _ _ (Walk-Counted l w)
  Walk-Counted l (ended t o ts h) = inl ([], t, ts, [], o, refl, refl, refl, refl)

  Answer-raised :
      (cs : List (Target × Outcome A)) (r : Result A) (status : ℕ) (body : Json)
      → Answer cs r
      → r ≡ raised status body
      → is_retryable_status status ≡ false
  Answer-raised [] r status body (e, p) q = cc
  Answer-raised ((t, returned a) ∷ cs) r status body (_, p) q = cc
  Answer-raised ((t, upstream n b) ∷ cs) r status body ans q =
      elim (Bool-cases (is_retryable_status n)) [
        | inl h ↦ Answer-raised cs r status body (rw h at ans) q
        | inr h ↦
            let final : (cs ≡ []) × (r ≡ raised n b) = rw h at ans in ground (arith, final.1, q, h)
      ]
  Answer-raised ((t, timed_out) ∷ cs) r status body ans q = Answer-raised cs r status body ans q
  Answer-raised ((t, transport) ∷ cs) r status body ans q = Answer-raised cs r status body ans q
  Answer-raised ((t, crashed) ∷ cs) r status body (_, p) q = cc

module _ {ℓ} {Adapter : Type 0} {A : Type ℓ} (env : Env Adapter A) (s : Settings) where
  -- Whatever the adapters, the clock, the random delays and the other requests do: the upstream
  -- calls of a run go to a subsequence of the targets, in their order and each at most once; every
  -- call but the last has a retryable outcome; and the answer is that of the first call whose
  -- outcome is not retryable, or `AllTargetsFailed` if there is none.
  pub run-Answer :
      (targets : List Target) (registry : Dict String Adapter) (request : ChatCompletionRequest)
      (w : World A)
      → let (r, v) = run env s targets registry request w in
        (cs : List (Target × Outcome A)) × (v.calls ≡ w.calls ++ cs)
        × Sublist (called cs) targets
        × Answer cs r
  unfolding run
  run-Answer targets registry request w =
      let (cs, fs, p, q, walk) =
        loop-Ran env s registry request (env.now w.tick) true (λ n h. refl) targets _ _ in
      let (sub, ans) = Walk-Answer walk in (cs, p, sub, ans)

  -- While the deadline is not passed, a run counts exactly one provider failure for each target that
  -- it left behind, in order: for every target if it ends in `AllTargetsFailed`, and else for the
  -- targets before the one that its last upstream call went to, with whose outcome it ends.
  pub run-Counted :
      (targets : List Target) (registry : Dict String Adapter) (request : ChatCompletionRequest)
      (w : World A)
      → ((n : ℕ) → env.now n ≤ env.now w.tick + s.deadline)
      → let (r, v) = run env s targets registry request w in
        (cs : List (Target × Outcome A)) × (fs : List (String × Reason)) × (v.calls ≡ w.calls ++ cs)
        × (v.failures ≡ w.failures ++ fs)
        × Counted targets cs (providers fs) r
  unfolding run
  run-Counted targets registry request w in_time =
      let (cs, fs, p, q, walk) =
        loop-Ran env s registry request (env.now w.tick) false (λ n h. ground (arith, in_time n))
          targets _ _ in
      (cs, fs, p, q, Walk-Counted refl walk)

  -- The executor raises an upstream error itself only where its status is not retryable: never 429
  -- and never 500 or above.
  pub raised_not_retryable :
      (targets : List Target) (registry : Dict String Adapter) (request : ChatCompletionRequest)
      (w : World A) (status : ℕ) (body : Json)
      → (run env s targets registry request w).0 ≡ raised status body
      → (status ≢ 429) × (status < 500)
  unfolding is_retryable_status
  raised_not_retryable targets registry request w status body e =
      let (cs, p, sub, ans) = run-Answer targets registry request w in
      let final : is_retryable_status status ≡ false = Answer-raised cs _ status body ans e in
      ground (arith, final)
