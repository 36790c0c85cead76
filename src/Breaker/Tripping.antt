-- ===== src/Breaker/Tripping.antt =====
-- circuit_breaker.py: how many failures in a row a new breaker takes.
use native.Mathlib.Nat.{add-zero}
use switchyard_llm.Prelude.{
  refl, map, List, ℕ, suc, ◌+◌, ◌≤◌, ◌<◌, ◌≡◌, Bool, true, false, List, [], ◌∷◌, ◌++◌, length,
  arith, length-append,
}
use switchyard_llm.Breaker.{
  fresh, fails, run, closed, opened, Config, CircuitBreaker, count_false, append_bounded,
  record_failure,
}

-- A closed breaker that has seen `k` failures and nothing else.
record Failed (c : Config) (k : ℕ) (b : CircuitBreaker) : Type 0 where
  state : b.state ≡ closed
  size : length b.window ≡ k
  failures : count_false b.window ≡ k

count_false-append : (w : List Bool) → count_false (w ++ false ∷ []) ≡ count_false w + 1
count_false-append [] = omega arith
count_false-append (true ∷ w) = count_false-append w
count_false-append (false ∷ w) = omega (arith, count_false-append w)

append_failure : (n : ℕ) (w : List Bool) → length w < n → append_bounded n w false ≡ w ++ false ∷ []
unfolding append_bounded
append_failure n w h = ground (arith, length-append w (false ∷ []))

not_yet :
    (c : Config) (k now : ℕ) (b : CircuitBreaker)
    → c.min_calls ≤ c.window_size
    → suc k < c.min_calls
    → Failed c k b
    → Failed c (suc k) (record_failure c now b)
unfolding record_failure
not_yet c k now b fits h f = ground (
  arith,
  append_failure c.window_size b.window,
  length-append b.window (false ∷ []),
  count_false-append b.window,
)

now_open :
    (c : Config) (k now : ℕ) (b : CircuitBreaker)
    → c.min_calls ≤ c.window_size
    → suc k ≡ c.min_calls
    → c.threshold_num ≤ c.threshold_den
    → Failed c k b
    → (record_failure c now b).state ≡ opened
unfolding record_failure
now_open c k now b fits h rate f = grind (
  arith,
  append_failure c.window_size b.window,
  length-append b.window (false ∷ []),
  count_false-append b.window,
)

run_failures :
    (c : Config) (k : ℕ) (b : CircuitBreaker) (times : List ℕ)
    → c.min_calls ≤ c.window_size
    → k + length times < c.min_calls
    → Failed c k b
    → Failed c (k + length times) (run c b (map fails times))
run_failures c k b [] fits h f = rw (add-zero k) f
run_failures c k b (now ∷ times) fits h f = rw (← suc-add-length) (
    run_failures c (suc k) (record_failure c now b) times fits (omega arith)
      (not_yet c k now b fits (omega arith) f))
  where
    suc-add-length : suc k + length times ≡ k + suc (length times)
    suc-add-length = omega arith

-- With a threshold of at most 1 and a window that holds `min_calls` outcomes, a new breaker that
-- gets nothing but failures stays closed before the failure number `min_calls` and opens at it,
-- whenever they come.
pub trips_at_min_calls :
    (c : Config) (times : List ℕ) (now : ℕ)
    → c.threshold_num ≤ c.threshold_den
    → c.min_calls ≤ c.window_size
    → length times + 1 ≡ c.min_calls
    → let b = run c fresh (map fails times) in
      (b.state ≡ closed) × ((record_failure c now b).state ≡ opened)
trips_at_min_calls c times now rate fits n = (
  f.state,
  now_open c (0 + length times) now (run c fresh (map fails times)) fits (omega arith) rate f,
)
  where
    f : Failed c (0 + length times) (run c fresh (map fails times))
    f =
        run_failures c 0 fresh times fits (omega arith)
          (record { state = refl; size = refl; failures = refl })
