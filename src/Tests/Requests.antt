-- ===== src/Tests/Requests.antt =====
-- The executor and the whole pipeline at concrete inputs.
use switchyard_llm.Prelude.{
  length, ℕ, ◌+◌, ◌≤◌, ◌≡◌, ◌≢◌, refl, String, string_eq, Bool, true, false, List, [], ◌∷◌, ◌++◌,
  none, Dict, lookup, arith, if◌then◌else◌, min,
}
use mathlib.Core.List.{Sublist}
use switchyard_llm.Schemas.{Target}
use switchyard_llm.Breaker.Registry.{get}
use switchyard_llm.Executor.{
  Outcome, returned, timed_out, crashed, served, Reason, Env, Settings, World, run,
}
use switchyard_llm.Executor.Answers.{called, Answer, Counted, run-Answer, run-Counted}
use switchyard_llm.Executor.Trace.{providers}
use switchyard_llm.Executor.Fallback.{Fails, fallback_served}
use switchyard_llm.Executor.Backoff.{positive, Delays, run-Bounded}
use switchyard_llm.Tests.Components.{small, tripped, targets, request}

abbrev pub settings : Settings
settings = record { breaker = small; base_delay = 100; max_delay = 500; deadline = 1000 }

-- An adapter answers or times out.
abbrev calm : Env Bool ℕ
calm = record {
  now = λ n. min n 100;
  uniform = λ n c. c;
  call = λ n a x. if a then returned 42 else timed_out;
  others = λ n x. x;
}

abbrev crashing : Env Bool ℕ
crashing = record calm { now = λ n. 200; call = λ n a x. crashed }

abbrev pub registry : Dict String Bool
registry = ("gemini", false) ∷ ("groq", true) ∷ []

abbrev world : World ℕ
world = record {
  tick = 0;
  shared = record { breakers = []; signals = none };
  failures = [];
  calls = [];
  slept = [];
}

abbrev open_world : World ℕ
open_world = record world {
  shared = record { breakers = ("gemini", tripped) ∷ []; signals = none };
}

run-Answer_example :
    let (r, v) = run calm settings targets registry (request none) world in
    (cs : List (Target × Outcome ℕ)) × (v.calls ≡ [] ++ cs)
    × Sublist (called cs) targets
    × Answer cs r
run-Answer_example = run-Answer calm settings targets registry (request none) world

calm_time : (n : ℕ) → min n 100 ≤ min 0 100 + 1000
calm_time n = omega arith

run-Counted_example :
    let (r, v) = run calm settings targets registry (request none) world in
    (cs : List (Target × Outcome ℕ)) × (fs : List (String × Reason)) × (v.calls ≡ [] ++ cs)
    × (v.failures ≡ [] ++ fs)
    × Counted targets cs (providers fs) r
run-Counted_example = run-Counted calm settings targets registry (request none) world calm_time

gemini_ne_groq : ◌≢◌ {A = String} "gemini" "groq"
gemini_ne_groq e = absurd (ground (arith, string_eq.beq_iff "gemini" "groq", e))

abbrev pub gemini : Target
gemini = record { provider = "gemini"; model = "m1"; weight = 3 }

abbrev groq : Target
groq = record { provider = "groq"; model = "m2"; weight = 1 }

gemini-Fails : Fails calm settings registry gemini
unfolding lookup
gemini-Fails n true x e = absurd (ground (arith, e))
gemini-Fails n false x e = refl

fallback_served_example :
    (n : ℕ) × ((run calm settings (gemini ∷ groq ∷ []) registry (request none) world).0
      ≡ served 42 groq)
unfolding lookup get
fallback_served_example =
    fallback_served calm settings (gemini ∷ []) groq true (λ n x. 42) registry (request none) world
      (λ n x h. h) calm_time (gemini_ne_groq, tt) (gemini-Fails, tt) refl (λ n x. refl) refl

drawn : (n c : ℕ) → calm.uniform n c ≤ c
drawn n c = omega arith

run-Bounded_example :
    let v = (run calm settings targets registry (request none) world).1 in
    (cs : List (Target × Outcome ℕ)) × (ds : List ℕ) × (v.calls ≡ [] ++ cs)
    × (v.slept ≡ [] ++ positive calm settings drawn ds)
    × (length ds ≡ length cs)
    × Delays calm settings drawn 0 ds
run-Bounded_example = run-Bounded calm settings drawn targets registry (request none) world
