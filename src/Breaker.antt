-- ===== src/Breaker.antt =====
-- gateway/resilience/circuit_breaker.py: one provider's circuit breaker, and the registry of them.
-- Times are the readings of `clock`, as whole ticks; `clock() - opened_at >= reset_timeout_s` is
-- written as a sum, so that it is right also where the difference would be negative. The failure
-- threshold is the fraction `threshold_num / threshold_den`. With `window_size` 0 and `min_calls` 0
-- the source divides by zero; every other configuration is covered. Log lines are left out.
pub mod Invariant
pub mod Window
pub mod Tripping
pub mod Probes
pub mod Registry
use switchyard_llm.Prelude.{
  ℕ, ◌+◌, ◌*◌, Bool, true, false, List, [], ◌∷◌, ◌++◌, length, drop, ltb, leb, if◌then◌else◌,
}

-- `CircuitState`; `opened` is its OPEN.
pub data CircuitState : Type 0 where
  closed opened half_open : CircuitState

pub record Config : Type 0 where
  pub threshold_num : ℕ
  pub threshold_den : ℕ
  pub window_size : ℕ
  pub min_calls : ℕ
  pub reset_timeout : ℕ
  pub half_open_max : ℕ

-- The window has the oldest outcome first; `true` is a success.
pub record CircuitBreaker : Type 0 where
  pub state : CircuitState
  pub window : List Bool
  pub opened_at : ℕ
  pub half_open_calls : ℕ

-- `__init__`
abbrev pub fresh : CircuitBreaker
fresh = record { state = closed; window = []; opened_at = 0; half_open_calls = 0 }

-- `deque(maxlen=n).append(x)`: the oldest entry leaves a full window.
unfoldable pub append_bounded : ℕ → List Bool → Bool → List Bool
append_bounded n w x = let w' = w ++ x ∷ [] in if ltb n (length w') then drop 1 w' else w'

-- `window.count(False)`
abbrev pub count_false : List Bool → ℕ
count_false [] = 0
count_false (true ∷ w) = count_false w
count_false (false ∷ w) = 1 + count_false w

-- The clock is read once, for `opened_at`.
unfoldable pub to_open : ℕ → CircuitBreaker → CircuitBreaker
to_open now b = record b { state = opened; opened_at = now; half_open_calls = 0 }

unfoldable pub to_half_open : CircuitBreaker → CircuitBreaker
to_half_open b = record b { state = half_open; half_open_calls = 0 }

unfoldable pub to_closed : CircuitBreaker → CircuitBreaker
to_closed b = record b { state = closed; window = []; half_open_calls = 0 }

-- The HALF_OPEN branch of `allow`.
unfoldable pub probe : Config → CircuitBreaker → CircuitBreaker × Bool
probe c b =
    if ltb b.half_open_calls c.half_open_max
    then (record b { half_open_calls = b.half_open_calls + 1 }, true)
    else (b, false)

-- Whether a call may proceed at the time `now`.
unfoldable pub allow : Config → ℕ → CircuitBreaker → CircuitBreaker × Bool
unfolding probe to_half_open
allow c now b = elim b.state [
  | opened ↦
      if leb (b.opened_at + c.reset_timeout) now then probe c (to_half_open b) else (b, false)
  | half_open ↦ probe c b
  | closed ↦ (b, true)
]

unfoldable pub record_success : Config → CircuitBreaker → CircuitBreaker
unfolding to_closed append_bounded
record_success c b = elim b.state [
  | half_open ↦ to_closed b
  | _ ↦ record b { window = append_bounded c.window_size b.window true }
]

-- `failure_rate >= failure_threshold`, with the division multiplied out.
abbrev pub trips : Config → List Bool → Bool
trips c w =
    if leb c.min_calls (length w)
    then leb (c.threshold_num * length w) (c.threshold_den * count_false w)
    else false

unfoldable pub record_failure : Config → ℕ → CircuitBreaker → CircuitBreaker
unfolding to_open append_bounded
record_failure c now b = elim b.state [
  | half_open ↦ to_open now b
  | _ ↦
      let w = append_bounded c.window_size b.window false in
      let b' = record b { window = w } in if trips c w then to_open now b' else b'
]

-- The calls that a breaker gets, with the clock's reading.
pub data Event : Type 0 where
  asks : ℕ → Event
  succeeds : Event
  fails : ℕ → Event

abbrev pub step : Config → CircuitBreaker → Event → CircuitBreaker
step c b (asks now) = (allow c now b).0
step c b succeeds = record_success c b
step c b (fails now) = record_failure c now b

abbrev pub run : Config → CircuitBreaker → List Event → CircuitBreaker
run c b [] = b
run c b (e ∷ es) = run c (step c b e) es

-- What the `allow` calls of a history answer, in order.
abbrev pub answers : Config → CircuitBreaker → List Event → List Bool
answers c b [] = []
answers c b (asks now ∷ es) = (allow c now b).1 ∷ answers c (step c b (asks now)) es
answers c b (e ∷ es) = answers c (step c b e) es
