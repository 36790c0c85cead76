-- ===== src/Executor/Ending.antt =====
-- retry.py: how a run ends that does not run out of targets.
use mathlib.Core.List.{append_cancel_left}
use switchyard_llm.Prelude.{
  ◌≡◌, refl, sym, ◌∙◌, subst, ◌⊎◌, inl, inr, String, Bool, true, false, List, Dict, All,
}
use switchyard_llm.Schemas.{ChatCompletionRequest, Target}
use switchyard_llm.Executor.{Outcome, Result, Env, Settings, World, run}
use switchyard_llm.Executor.Trace.{
  retryable, conclude, Walk, exhausted, expired, skipped, failed, ended, loop-Ran,
}
use switchyard_llm.Executor.Healthy.{is_exhausted}
use switchyard_llm.Executor.Calls.{Genuine, run-Genuine}

-- A walk ends with the final outcome of one of its calls, unless all targets failed.
Walk-ended :
    {A : Type 0} (P : Target → Type 0) (G : Target × Outcome A → Type 0) {late : Bool}
    {ts : List Target} {cs : List (Target × Outcome A)} {fs : List String} {r : Result A}
    → Walk late ts cs fs r
    → All P ts
    → All G cs
    → (is_exhausted r ≡ true)
      ⊎ ((t : Target) × (o : Outcome A) × P t
          × G (t, o)
          × (retryable o ≡ false)
          × (r ≡ conclude t o))
Walk-ended P G (exhausted e) ps gs = inl refl
Walk-ended P G (expired ts e h) ps gs = inl refl
Walk-ended P G (skipped t w) (p, ps) gs = Walk-ended P G w ps gs
Walk-ended P G (failed t o h w) (p, ps) (g, gs) = Walk-ended P G w ps gs
Walk-ended P G (ended t o ts h) (p, ps) (g, gs) = inr (t, o, p, g, h, refl)

module _ {Adapter : Type 0} {A : Type 0} (env : Env Adapter A) (s : Settings)
    (registry : Dict String Adapter) (request : ChatCompletionRequest) where
  -- A run ends in `AllTargetsFailed`, or with the outcome of a call of one of its targets' own
  -- adapters, with the request for that target's model. What holds of all targets holds of that one.
  pub run-Ended :
      (P : Target → Type 0) (targets : List Target) (w : World A)
      → All P targets
      → let r = (run env s targets registry request w).0 in
        (is_exhausted r ≡ true)
        ⊎ ((t : Target) × (o : Outcome A) × P t
            × Genuine env s registry request (t, o)
            × (retryable o ≡ false)
            × (r ≡ conclude t o))
  unfolding run
  run-Ended P targets w ps =
      let (cs, grown, genuine) = run-Genuine env s registry request targets w in
      let (ds, fs, grown', counts, walk) =
        loop-Ran env s registry request (env.now w.tick) true (λ n h. refl) targets _ _ in
      let same : cs ≡ ds = append_cancel_left w.calls cs ds (sym grown ∙ grown') in
      Walk-ended P (Genuine env s registry request) walk ps
        (subst (All (Genuine env s registry request)) same genuine)
