-- ===== src/Breaker/Probes.antt =====
-- circuit_breaker.py: what an open and a half-open breaker lets through, and how it recovers.
use switchyard_llm.Prelude.{
  ℕ, suc, ◌+◌, ◌≤◌, ◌<◌, ◌≡◌, refl, ap, ◌∙◌, Bool, true, false, List, [], ◌∷◌, map, length, min,
  All, arith, ltb,
}
use switchyard_llm.Breaker.{
  closed, opened, half_open, Config, CircuitBreaker, Event, asks, succeeds, fails, probe, allow,
  record_success, record_failure, step, run, answers,
}

-- An event whose time, if it has one, lies from `t0` up to but not including `t1`.
abbrev pub Within : ℕ → ℕ → Event → Type 0
Within t0 t1 (asks now) = (t0 ≤ now) × (now < t1)
Within t0 t1 succeeds = Unit {0}
Within t0 t1 (fails now) = (t0 ≤ now) × (now < t1)

step_stays_open :
    (c : Config) (b : CircuitBreaker) (t0 : ℕ) (e : Event)
    → b.state ≡ opened
    → t0 ≤ b.opened_at
    → Within t0 (t0 + c.reset_timeout) e
    → ((step c b e).state ≡ opened) × (t0 ≤ (step c b e).opened_at)
unfolding allow record_success record_failure
step_stays_open c b t0 (asks now) s t w = ground arith
step_stays_open c b t0 succeeds s t w = ground arith
step_stays_open c b t0 (fails now) s t w = ground arith

denied :
    (c : Config) (b : CircuitBreaker) (t0 now : ℕ)
    → b.state ≡ opened
    → t0 ≤ b.opened_at
    → now < t0 + c.reset_timeout
    → (allow c now b).1 ≡ false
unfolding allow
denied c b t0 now s t w = ground arith

-- A breaker that is open at the time `t0` stays open and refuses every call until `t0` plus the
-- reset timeout, whatever late outcomes are reported to it meanwhile.
pub open_blocks :
    (c : Config) (b : CircuitBreaker) (t0 : ℕ) (es : List Event)
    → b.state ≡ opened
    → t0 ≤ b.opened_at
    → All (Within t0 (t0 + c.reset_timeout)) es
    → ((run c b es).state ≡ opened) × All (λ a. a ≡ false) (answers c b es)
open_blocks c b t0 [] s t w = (s, tt)
open_blocks c b t0 (asks now ∷ es) s t (w, ws) =
    let (s', t') = step_stays_open c b t0 (asks now) s t w in
    let (final, rest) = open_blocks c (step c b (asks now)) t0 es s' t' ws in
    (final, (denied c b t0 now s t w.1, rest))
open_blocks c b t0 (succeeds ∷ es) s t (w, ws) =
    let (s', t') = step_stays_open c b t0 succeeds s t w in
    open_blocks c (step c b succeeds) t0 es s' t' ws
open_blocks c b t0 (fails now ∷ es) s t (w, ws) =
    let (s', t') = step_stays_open c b t0 (fails now) s t w in
    open_blocks c (step c b (fails now)) t0 es s' t' ws

abbrev pub count_true : List Bool → ℕ
count_true [] = 0
count_true (true ∷ l) = 1 + count_true l
count_true (false ∷ l) = count_true l

ask_half_open :
    (c : Config) (b : CircuitBreaker) (now : ℕ)
    → b.state ≡ half_open
    → b.half_open_calls ≤ c.half_open_max
    → let (b', granted) = allow c now b in
      (b'.state ≡ half_open)
      × (b'.half_open_calls ≤ c.half_open_max)
      × (granted ≡ ltb b.half_open_calls c.half_open_max)
      × (b'.half_open_calls ≡ min (b.half_open_calls + 1) c.half_open_max)
unfolding allow probe
ask_half_open c b now s l = ground arith

granted_count :
    (g : Bool) (rest : List Bool) (h m k : ℕ)
    → g ≡ ltb h m
    → h ≤ m
    → count_true rest + min (h + 1) m ≡ min (min (h + 1) m + k) m
    → count_true (g ∷ rest) + h ≡ min (h + suc k) m
granted_count true rest h m k e l ih = ground (arith)
granted_count false rest h m k e l ih = ground (arith)

-- However often and whenever a half-open breaker is asked, with no outcome reported between, it
-- grants exactly as many calls as there are free probe slots, as long as calls last.
pub probes_granted :
    (c : Config) (b : CircuitBreaker) (times : List ℕ)
    → b.state ≡ half_open
    → b.half_open_calls ≤ c.half_open_max
    → count_true (answers c b (map asks times)) + b.half_open_calls
      ≡ min (b.half_open_calls + length times) c.half_open_max
probes_granted c b [] s l = omega arith
probes_granted c b (now ∷ times) s l =
    let (s', l', g, n) = ask_half_open c b now s l in
    granted_count _ (answers c (allow c now b).0 (map asks times)) _ _ _ g l
      (rw (← n) (probes_granted c (allow c now b).0 times s' l'))

full_half_open :
    (c : Config) (b : CircuitBreaker) (now : ℕ)
    → b.state ≡ half_open
    → b.half_open_calls ≡ c.half_open_max
    → ((allow c now b).0 ≡ b) × ((allow c now b).1 ≡ false)
unfolding allow probe
full_half_open c b now s l = ground arith

-- A half-open breaker whose probe slots are all taken refuses every call at every time and does not
-- change: no timeout leads out of this state, only a reported outcome does.
pub probe_slots_leak :
    (c : Config) (b : CircuitBreaker) (times : List ℕ)
    → b.state ≡ half_open
    → b.half_open_calls ≡ c.half_open_max
    → (run c b (map asks times) ≡ b) × All (λ a. a ≡ false) (answers c b (map asks times))
probe_slots_leak c b [] s l = (refl, tt)
probe_slots_leak c b (now ∷ times) s l =
    let (same, refused) = full_half_open c b now s l in
    let (r, rs) = probe_slots_leak c b times s l in
    (ap (λ (b' : CircuitBreaker). run c b' (map asks times)) same ∙ r, (refused, rw same rs))

-- Once the reset timeout is over, an open breaker lets a probe through. A success of the probe
-- closes it with an empty window; a failure opens it again at the time of the failure, with the
-- window that it had.
pub recovery :
    (c : Config) (b : CircuitBreaker) (now later : ℕ)
    → b.state ≡ opened
    → 0 < c.half_open_max
    → b.opened_at + c.reset_timeout ≤ now
    → let (b', granted) = allow c now b in
      (granted ≡ true)
      × (b'.state ≡ half_open)
      × ((record_success c b').state ≡ closed)
      × ((record_success c b').window ≡ [])
      × ((record_failure c later b').state ≡ opened)
      × ((record_failure c later b').opened_at ≡ later)
      × ((record_failure c later b').window ≡ b.window)
unfolding allow record_success record_failure
recovery c b now later s p w = ground arith
