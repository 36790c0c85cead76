-- ===== src/Breaker/Invariant.antt =====
-- circuit_breaker.py: what holds of a breaker after any history of calls.
use switchyard_llm.Prelude.{
  ℕ, ◌≤◌, Bool, true, false, List, [], ◌∷◌, ◌++◌, length, arith, length-append, length-drop,
}
use switchyard_llm.Breaker.{
  CircuitState, half_open, Config, CircuitBreaker, Event, asks, succeeds, fails, fresh,
  append_bounded, allow, record_success, record_failure, step, run,
}

-- Only a half-open breaker has probes out, and it has at most `half_open_max`.
abbrev pub probe_limit : Config → CircuitState → ℕ
probe_limit c half_open = c.half_open_max
probe_limit c _ = 0

pub record IsValid (c : Config) (b : CircuitBreaker) : Type 0 where
  pub bounded : length b.window ≤ c.window_size
  pub probes : b.half_open_calls ≤ probe_limit c b.state

append_bounded-le :
    (n : ℕ) (w : List Bool) (x : Bool) → length w ≤ n → length (append_bounded n w x) ≤ n
unfolding append_bounded
append_bounded-le n w x h = ground (arith, length-append w (x ∷ []), length-drop 1 (w ++ x ∷ []))

step-IsValid : (c : Config) (b : CircuitBreaker) (e : Event) → IsValid c b → IsValid c (step c b e)
unfolding allow record_success record_failure
step-IsValid c b (asks now) v = ground arith
step-IsValid c b succeeds v = ground (arith, append_bounded-le c.window_size b.window true)
step-IsValid c b (fails now) v = ground (arith, append_bounded-le c.window_size b.window false)

run_keeps :
    (c : Config) (b : CircuitBreaker) (es : List Event) → IsValid c b → IsValid c (run c b es)
run_keeps c b [] v = v
run_keeps c b (e ∷ es) v = run_keeps c (step c b e) es (step-IsValid c b e v)

-- After any history of calls of a new breaker the rolling window has at most `window_size`
-- outcomes, a half-open breaker has at most `half_open_max` probes out, and any other has none.
pub run-IsValid : (c : Config) (es : List Event) → IsValid c (run c fresh es)
run-IsValid c es = run_keeps c fresh es (record { bounded = omega arith; probes = omega arith })
